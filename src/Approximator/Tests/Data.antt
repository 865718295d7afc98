-- ===== src/Approximator/Tests/Data.antt =====
-- A small game: two points, polynomials of degree 1, one player known and one not.
use mathlib.Core.Option.{some-injective}
use computer_networks_course.Prelude.{
  ℕ, ◌+◌, ◌≤◌, ◌≡◌, refl, sym, ap, ◌∙◌, true, false, none, some, List, [], ◌∷◌, ◌++◌, arith, length,
  Text, codes, text_eq, ℤ, pos,
}
use computer_networks_course.Approximator.MsgParser.Chars.{
  isdigit, islower, take_digits, drop_digits,
}
use computer_networks_course.Approximator.MsgParser.Integer.{digits_value, isspace}
use computer_networks_course.Approximator.MsgParser.Decimal.{
  scan_fraction, skip_dot, is_unsigned_format, is_valid_double_format, parse_double,
}
use computer_networks_course.Approximator.MsgParser.Params.{
  find, extract_command_and_params, is_param_char, regex_match, read_tokens, split_params,
}
use computer_networks_course.Approximator.MsgParser.Message.{
  Message, coeff, parse_message, parse_coeff, parse_coeffs, create_message,
}
use computer_networks_course.Approximator.ServerLogic.Players.{PlayerInfo, lookup}
use computer_networks_course.Approximator.ServerLogic.State.{Server}
use computer_networks_course.Approximator.ServerLogic.Invariant.{IsPlayer, IsValid}
use computer_networks_course.Approximator.ServerLogic.HelloInvariant.{
  CoeffLine, CoeffFile, lines_of, push_first,
}
use computer_networks_course.Approximator.Tests.FixedPoint.{
  fixed_point, fraction_value, read_unsigned, read_fixed,
}
use computer_networks_course.Approximator.Tests.Messages.{ann_valid}

abbrev pub ann : PlayerInfo ℤ
ann = record {
  id = codes "ann";
  ip = codes "::1";
  port = 7;
  messages = codes "abc" ∷ codes "d" ∷ [];
  approximations = pos 0 ∷ pos 0 ∷ [];
  coefficients = pos 100000000 ∷ pos 0 ∷ [];
  penalty = pos 0;
  is_known = true;
  correct_puts = 1;
  can_put = true;
  delay = 3;
}

abbrev pub newcomer : PlayerInfo ℤ
newcomer = record {
  id = codes "UNKNOWN";
  ip = codes "::1";
  port = 8;
  messages = [];
  approximations = pos 0 ∷ pos 0 ∷ [];
  coefficients = pos 0 ∷ pos 0 ∷ [];
  penalty = pos 0;
  is_known = false;
  correct_puts = 0;
  can_put = false;
  delay = 0;
}

abbrev pub game : Server ℤ
game = record {
  k = 1;
  n = 1;
  m = 5;
  total_correct_puts = 1;
  coeff_file = codes "COEFF 1 2\r\nCOEFF 3 4\r\n";
  players = (4, ann) ∷ (5, newcomer) ∷ [];
  events = [];
  stopping = false;
}

pub ann_connected : lookup 4 game.players ≡ some ann
unfolding lookup
ann_connected = refl

pub newcomer_connected : lookup 5 game.players ≡ some newcomer
unfolding lookup
newcomer_connected = refl

pub nobody_connected : lookup 6 game.players ≡ none
unfolding lookup
nobody_connected = refl

ann-IsPlayer : IsPlayer 1 1 ann
ann-IsPlayer = record {
  points = refl;
  silent = λ e. absurd (cc e);
  valid_id = λ _. ((λ e. cc), ann_valid);
  enough = λ _. omega arith;
}

newcomer-IsPlayer : IsPlayer 1 1 newcomer
newcomer-IsPlayer = record {
  points = refl;
  silent = λ _. refl;
  valid_id = λ e. absurd (cc e);
  enough = λ e. absurd (cc e);
}

pub game-IsValid : IsValid game
game-IsValid = record {
  ordered = (omega arith, (omega arith, tt));
  players_ok = (ann-IsPlayer, (newcomer-IsPlayer, tt));
  counted = refl;
  timely = tt;
}

line_ok :
    (n : ℕ) (line : Text) (m : Message ℤ) (cs : List ℤ)
    → create_message (line ++ b'\n' ∷ []) ≡ some m
    → m.body ≡ coeff cs
    → n + 1 ≤ length cs
    → CoeffLine fixed_point n line
line_ok n line m cs e eb le =
    λ m' h. (cs, ap (λ x. x.body) (some-injective m' m (sym h ∙ e)) ∙ eb, le)

first_read :
    create_message (codes "COEFF 1 2\r\n")
    ≡ some (record {
      raw_message = codes "COEFF 1 2\r\n";
      params = codes "1" ∷ codes "2" ∷ [];
      body = coeff (pos 100000000 ∷ pos 200000000 ∷ []);
    })
unfolding create_message extract_command_and_params find split_params regex_match read_tokens
    is_param_char isdigit islower isspace text_eq parse_message parse_coeff parse_coeffs take_digits
    drop_digits digits_value parse_double is_valid_double_format is_unsigned_format skip_dot
    scan_fraction read_fixed read_unsigned fraction_value
first_read = refl

second_read :
    create_message (codes "COEFF 3 4\r\n")
    ≡ some (record {
      raw_message = codes "COEFF 3 4\r\n";
      params = codes "3" ∷ codes "4" ∷ [];
      body = coeff (pos 300000000 ∷ pos 400000000 ∷ []);
    })
unfolding create_message extract_command_and_params find split_params regex_match read_tokens
    is_param_char isdigit islower isspace text_eq parse_message parse_coeff parse_coeffs take_digits
    drop_digits digits_value parse_double is_valid_double_format is_unsigned_format skip_dot
    scan_fraction read_fixed read_unsigned fraction_value
second_read = refl

pub game-CoeffFile : CoeffFile fixed_point game.n game.coeff_file
unfolding lines_of push_first
game-CoeffFile = (
  line_ok 1 (codes "COEFF 1 2\r") _ (pos 100000000 ∷ pos 200000000 ∷ []) first_read refl
      (omega arith),
  (
    line_ok 1 (codes "COEFF 3 4\r") _ (pos 300000000 ∷ pos 400000000 ∷ []) second_read refl
        (omega arith),
    tt,
  ),
)
