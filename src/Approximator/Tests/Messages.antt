-- ===== src/Approximator/Tests/Messages.antt =====
-- The theorems on the parser and the printer at concrete messages.
use computer_networks_course.Prelude.{
  ◌≡◌, refl, true, false, some, List, [], ◌∷◌, ◌++◌, map, arith, All, Text, codes, text_eq, ℤ, pos,
  negsuc,
}
use mathlib.Core.List.{Perm}
use computer_networks_course.Approximator.Constants.{crlf}
use computer_networks_course.Approximator.MsgParser.Chars.{
  isdigit, islower, isalnum, all_of, is_alphanumeric, take_digits, drop_digits,
}
use computer_networks_course.Approximator.MsgParser.Integer.{
  parse_integer, is_valid_integer_format, digits_value, isspace, skip_space, read_sign,
  to_long_long, read_long_long, stoll, print_digits,
}
use computer_networks_course.Approximator.MsgParser.Decimal.{
  scan_fraction, skip_dot, is_unsigned_format, is_valid_double_format, parse_double,
}
use computer_networks_course.Approximator.MsgParser.Decimal.Laws.{IsDecimal}
use computer_networks_course.Approximator.MsgParser.Params.{
  find, extract_command_and_params, is_param_char, regex_match, read_tokens, split_params,
}
use computer_networks_course.Approximator.MsgParser.Params.Laws.{IsToken}
use computer_networks_course.Approximator.MsgParser.Message.{
  Message, put, bad_put, penalty, state, scoring, validate_int_double_pair, parse_pair,
  parse_message, create_message,
}
use computer_networks_course.Approximator.MsgParser.Message.Laws.{
  command_of, line_of, create_message_sound,
}
use computer_networks_course.Approximator.MsgParser.Printer.{
  double_to_string, create_put, create_bad_put, create_penalty, create_state, create_scoring,
  sort_scores,
}
use computer_networks_course.Approximator.MsgParser.Printer.Laws.{
  ReadsBack, pair_message, create_put-RoundTrip, create_state-RoundTrip,
}
use computer_networks_course.Approximator.MsgParser.Printer.Scoring.{
  fields, ids_of, scores_of, read_all, SortedFrom, create_scoring_total,
}
use computer_networks_course.Approximator.MsgParser.Message.{coeff, parse_coeff, parse_coeffs}
use computer_networks_course.Approximator.Tests.FixedPoint.{
  fixed_point, fixed_point-Printable, fixed_digits, whole_digits, place_digits, fraction_value,
  read_unsigned, read_fixed,
}

minus_twelve : parse_integer (codes "-12") ≡ some (negsuc 11)
unfolding parse_integer is_valid_integer_format stoll skip_space isspace read_sign read_long_long
    to_long_long take_digits drop_digits digits_value all_of isdigit
minus_twelve = refl

-- -1.5 and .5
half_past : IsDecimal (codes "1") true (codes "5")
unfolding isdigit
half_past = record {
  lead_digits = (refl, tt);
  frac_digits = (refl, tt);
  some_digit = λ e. cc;
  few = omega arith;
  no_dot = λ e. absurd (cc e);
}

point_five : is_valid_double_format (codes ".5") ≡ true
unfolding is_valid_double_format is_unsigned_format skip_dot scan_fraction take_digits drop_digits
    isdigit
point_five = refl

a_2 : split_params (codes "a 2") ≡ some (codes "a" ∷ codes "2" ∷ [])
unfolding split_params regex_match read_tokens is_param_char isdigit islower isspace
a_2 = refl

tokens : All IsToken (codes "a" ∷ codes "2" ∷ [])
unfolding is_param_char isdigit islower
tokens = (((λ e. cc), (refl, tt)), (((λ e. cc), (refl, tt)), tt))

abbrev pub put_message : Message ℤ
put_message = record {
  raw_message = codes "PUT 1 1.5\r\n";
  params = codes "1" ∷ codes "1.5" ∷ [];
  body = put (pos 1) (pos 150000000);
}

pub put_message_read : create_message (codes "PUT 1 1.5\r\n") ≡ some put_message
unfolding create_message extract_command_and_params find split_params regex_match read_tokens
    is_param_char isdigit islower text_eq parse_message parse_pair validate_int_double_pair
    parse_integer is_valid_integer_format stoll skip_space isspace read_sign read_long_long
    to_long_long take_digits drop_digits digits_value all_of parse_double is_valid_double_format
    is_unsigned_format skip_dot scan_fraction read_fixed read_unsigned fraction_value
put_message_read = refl

create_message_sound_example :
    (put_message.raw_message ≡ codes "PUT 1 1.5\r\n")
    × (codes "PUT 1 1.5\r\n" ≡ line_of (command_of put_message.body) put_message.params ++ crlf)
    × All IsToken put_message.params
    × (parse_message (command_of put_message.body) put_message.params ≡ some put_message.body)
create_message_sound_example =
    create_message_sound (codes "PUT 1 1.5\r\n") put_message put_message_read

-- 1.5 prints as 1.5000000.
one_and_half : ReadsBack (pos 150000000) (pos 150000000)
unfolding double_to_string whole_digits place_digits print_digits fixed_digits isdigit read_fixed
    read_unsigned fraction_value take_digits drop_digits skip_dot digits_value
one_and_half = record {
  neg = false;
  lead = codes "1";
  dot = true;
  frac = codes "5000000";
  printed = refl;
  decimal = record {
    lead_digits = (refl, tt);
    frac_digits = (refl, (refl, (refl, (refl, (refl, (refl, (refl, tt)))))));
    some_digit = λ e. cc;
    few = omega arith;
    no_dot = λ e. absurd (cc e);
  };
  reads = refl;
}

create_put-RoundTrip_example :
    (create_put (negsuc 2) (pos 150000000)
      ≡ some (pair_message (codes "PUT") put (negsuc 2) (pos 150000000) (pos 150000000)))
    × (create_bad_put (negsuc 2) (pos 150000000)
        ≡ some (pair_message (codes "BAD_PUT") bad_put (negsuc 2) (pos 150000000) (pos 150000000)))
    × (create_penalty (negsuc 2) (pos 150000000)
        ≡ some (pair_message (codes "PENALTY") penalty (negsuc 2) (pos 150000000) (pos 150000000)))
create_put-RoundTrip_example =
    create_put-RoundTrip (negsuc 2) (pos 150000000) (pos 150000000) refl one_and_half

create_state-RoundTrip_example :
    create_state (pos 150000000 ∷ pos 150000000 ∷ [])
    ≡ some (record {
      raw_message =
          line_of (codes "STATE") (map double_to_string (pos 150000000 ∷ pos 150000000 ∷ []))
          ++ crlf;
      params = map double_to_string (pos 150000000 ∷ pos 150000000 ∷ []);
      body = state (pos 150000000 ∷ pos 150000000 ∷ []);
    })
create_state-RoundTrip_example =
    create_state-RoundTrip (pos 150000000 ∷ pos 150000000 ∷ []) (pos 150000000 ∷ pos 150000000 ∷ [])
      (λ e. cc) (omega arith) (one_and_half, (one_and_half, tt))

pub ann_valid : is_alphanumeric (codes "ann") ≡ true
unfolding is_alphanumeric all_of isalnum islower isdigit
ann_valid = refl

bob_valid : is_alphanumeric (codes "bob") ≡ true
unfolding is_alphanumeric all_of isalnum islower isdigit
bob_valid = refl

create_scoring_total_example :
    (ps : List (Text × ℤ)) × (ids_of ps ≡ codes "bob" ∷ codes "ann" ∷ [])
    × (scores_of ps ≡ pos 3 ∷ pos 0 ∷ [])
    × (m : Message ℤ) × (create_scoring (codes "bob" ∷ codes "ann" ∷ []) (pos 3 ∷ pos 0 ∷ [])
        ≡ some m)
    × (m.body ≡ scoring (ids_of (sort_scores ps)) (read_all fixed_point-Printable (sort_scores ps)))
    × (m.raw_message ≡ line_of (codes "SCORING") (fields (sort_scores ps)) ++ crlf)
    × Perm (sort_scores ps) ps
    × SortedFrom [] (sort_scores ps)
create_scoring_total_example =
    create_scoring_total fixed_point-Printable (codes "bob" ∷ codes "ann" ∷ []) (pos 3 ∷ pos 0 ∷ [])
      (λ e. cc) refl (((λ e. cc), bob_valid), (((λ e. cc), ann_valid), tt))

coeff_read : parse_coeff (codes "1.5" ∷ []) ≡ some (coeff (pos 150000000 ∷ []))
unfolding parse_coeff parse_coeffs take_digits drop_digits isdigit digits_value parse_double
    is_valid_double_format is_unsigned_format skip_dot scan_fraction read_fixed read_unsigned
    fraction_value
coeff_read = refl
