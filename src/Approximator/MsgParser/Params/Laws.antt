-- ===== src/Approximator/MsgParser/Params/Laws.antt =====
-- What `splitParams` accepts, and what it returns.
use computer_networks_course.Prelude.{
  ℕ, ◌≡◌, refl, sym, ap, ◌∙◌, ◌≢◌, inl, inr, Bool, true, false, some, List, [], ◌∷◌, ◌++◌,
  append_assoc, append-nil, arith, Bool-cases, All, All-append, Text,
}
use computer_networks_course.Approximator.MsgParser.Chars.{isdigit, islower}
use computer_networks_course.Approximator.MsgParser.Integer.{isspace}
use computer_networks_course.Approximator.MsgParser.Params.{
  is_param_char, regex_match, read_tokens, split_params,
}

-- A token of the parameter list.
abbrev pub IsToken : Text → Type 0
IsToken t = (t ≢ []) × All (λ c. is_param_char c ≡ true) t

-- The tokens separated by single spaces.
unfoldable pub join : List Text → Text
join [] = []
join (t ∷ ts) = elim ts [ [] ↦ t | u ∷ us ↦ t ++ (b' ' ∷ join ts) ]

abbrev begun : Text → Bool
begun [] = false
begun (c ∷ s) = true

param-not-isspace : (c : ℕ) → is_param_char c ≡ true → isspace c ≡ false
unfolding is_param_char isspace isdigit islower
param-not-isspace c h = ground arith

not-param-space : is_param_char b' ' ≡ false
unfolding is_param_char isdigit islower
not-param-space = refl

-- One character of a token.
read_tokens_char :
    (cur s : Text) (c : ℕ)
    → is_param_char c ≡ true
    → read_tokens cur (c ∷ s) ≡ read_tokens (cur ++ c ∷ []) s
unfolding read_tokens
read_tokens_char [] s c h = rw (param-not-isspace c h)
read_tokens_char (x ∷ cur) s c h = rw (param-not-isspace c h)

read_tokens_space :
    (x : ℕ) (cur s : Text) → read_tokens (x ∷ cur) (b' ' ∷ s) ≡ (x ∷ cur) ∷ read_tokens [] s
unfolding read_tokens isspace
read_tokens_space x cur s = refl

regex_match_char :
    (b : Bool) (c : ℕ) (s : Text)
    → is_param_char c ≡ true
    → regex_match b (c ∷ s) ≡ regex_match true s
unfolding regex_match
regex_match_char b c s h = rw h

regex_match_space : (s : Text) → regex_match true (b' ' ∷ s) ≡ regex_match false s
unfolding regex_match
regex_match_space s = rw not-param-space

regex_match_other :
    (b : Bool) (c : ℕ) (s : Text)
    → is_param_char c ≡ false
    → regex_match b (c ∷ s) ≡ true
    → (b ≡ true) × (c ≡ b' ') × (regex_match false s ≡ true)
unfolding regex_match
regex_match_other b c s n h = ground arith

join_cons : (t : Text) (ts : List Text) → ts ≢ [] → join (t ∷ ts) ≡ t ++ (b' ' ∷ join ts)
unfolding join
join_cons t [] n = absurd (n refl)
join_cons t (u ∷ us) n = refl

join_one : (t : Text) → join (t ∷ []) ≡ t
unfolding join
join_one t = refl

-- What the tokens of an accepted text are, with the current token so far.
abbrev Reads : Text → List Text → Type 0
Reads whole ts = (join ts ≡ whole) × All IsToken ts × (ts ≢ [])

begun-concat : (cur : Text) (c : ℕ) → begun (cur ++ c ∷ []) ≡ true
begun-concat [] c = refl
begun-concat (x ∷ cur) c = refl

tokens_sound :
    (s cur : Text)
    → All (λ c. is_param_char c ≡ true) cur
    → regex_match (begun cur) s ≡ true
    → Reads (cur ++ s) (read_tokens cur s)
tokens_sound [] [] h m = absurd (unfold regex_match in cc m)
tokens_sound [] (x ∷ cur) h m =
    unfold read_tokens in
    (join_one (x ∷ cur) ∙ sym (append-nil (x ∷ cur)), (((λ e. cc), h), tt), λ e. cc)
tokens_sound (c ∷ s) cur h m = elim (Bool-cases (is_param_char c)) [
  | inl p ↦
      let m' : regex_match true s ≡ true = sym (regex_match_char (begun cur) c s p) ∙ m in
      let (j, ts, n) =
        tokens_sound s (cur ++ c ∷ []) (All-append _ cur (c ∷ []) h (p, tt))
          (ap (λ b. regex_match b s) (begun-concat cur c) ∙ m') in
      rw (read_tokens_char cur s c p) (j ∙ append_assoc cur (c ∷ []) s, ts, n)
  | inr p ↦
      let (b, e, m') = regex_match_other (begun cur) c s p m in
      rw e (at_space cur s b h (tokens_sound s [] tt m'))
]
  where
    at_space :
        (cur s : Text)
        → begun cur ≡ true
        → All (λ c. is_param_char c ≡ true) cur
        → Reads s (read_tokens [] s)
        → Reads (cur ++ (b' ' ∷ s)) (read_tokens cur (b' ' ∷ s))
    at_space [] s b h r = cc b
    at_space (x ∷ cur) s b h (j, ts, n) = rw (read_tokens_space x cur s) (
      join_cons (x ∷ cur) _ n ∙ ap (λ r. (x ∷ cur) ++ (b' ' ∷ r)) j,
      (((λ e. cc), h), ts),
      λ e. cc,
    )

-- An accepted parameter list that is not empty is its tokens, separated by single spaces.
pub split_params_sound :
    (p : Text) (ts : List Text)
    → split_params p ≡ some ts
    → p ≢ []
    → (join ts ≡ p) × All IsToken ts × (ts ≢ [])
unfolding split_params
split_params_sound [] ts h n = absurd (n refl)
split_params_sound (c ∷ s) ts h n = elim (Bool-cases (regex_match false (c ∷ s))) [
  | inl m ↦
      let e : read_tokens [] (c ∷ s) ≡ ts = ground arith in rw (← e) (tokens_sound (c ∷ s) [] tt m)
  | inr m ↦ absurd (ground arith)
]

read_tokens_token :
    (cur t s : Text)
    → All (λ c. is_param_char c ≡ true) t
    → read_tokens cur (t ++ s) ≡ read_tokens (cur ++ t) s
read_tokens_token cur [] s h = rw (append-nil cur)
read_tokens_token cur (c ∷ t) s h =
    read_tokens_char cur (t ++ s) c h.0
    ∙ read_tokens_token (cur ++ c ∷ []) t s h.1
    ∙ ap (λ x. read_tokens x s) (append_assoc cur (c ∷ []) t)

regex_match_token :
    (b : Bool) (t s : Text) → IsToken t → regex_match b (t ++ s) ≡ regex_match true s
regex_match_token b [] s h = absurd (h.0 refl)
regex_match_token b (c ∷ []) s h = regex_match_char b c s h.1.0
regex_match_token b (c ∷ d ∷ t) s h =
    regex_match_char b c (d ∷ (t ++ s)) h.1.0 ∙ regex_match_token true (d ∷ t) s ((λ e. cc), h.1.1)

tokens_complete :
    (t : Text) (ts : List Text)
    → IsToken t
    → All IsToken ts
    → (regex_match false (join (t ∷ ts)) ≡ true) × (read_tokens [] (join (t ∷ ts)) ≡ t ∷ ts)
tokens_complete t [] h hs =
    rw (join_one t, ← append-nil t)
      (
        regex_match_token false t [] h ∙ unfold regex_match in refl,
        read_tokens_token [] t [] h.1 ∙ one_token t h.0,
      )
  where
    one_token : (t : Text) → t ≢ [] → read_tokens t [] ≡ (t ++ []) ∷ []
    one_token [] n = absurd (n refl)
    one_token (x ∷ t) n = unfold read_tokens in ap (λ y. y ∷ []) (sym (append-nil (x ∷ t)))
tokens_complete t (u ∷ us) h hs =
    let (m, r) = tokens_complete u us hs.0 hs.1 in
    rw (join_cons t (u ∷ us) (λ e. cc)) (
      regex_match_token false t _ h ∙ regex_match_space (join (u ∷ us)) ∙ m,
      read_tokens_token [] t _ h.1 ∙ at_space t (join (u ∷ us)) h.0 ∙ ap (◌∷◌ t) r,
    )
  where
    at_space : (t s : Text) → t ≢ [] → read_tokens t (b' ' ∷ s) ≡ t ∷ read_tokens [] s
    at_space [] s n = absurd (n refl)
    at_space (x ∷ t) s n = read_tokens_space x t s

pub join-ne-nil : (t : Text) (ts : List Text) → t ≢ [] → join (t ∷ ts) ≢ []
unfolding join
join-ne-nil [] ts n = absurd (n refl)
join-ne-nil (c ∷ t) [] n = λ e. cc
join-ne-nil (c ∷ t) (u ∷ us) n = λ e. cc

split_params_text :
    (p : Text) (ts : List Text)
    → p ≢ []
    → regex_match false p ≡ true
    → read_tokens [] p ≡ ts
    → split_params p ≡ some ts
unfolding split_params
split_params_text [] ts n m r = absurd (n refl)
split_params_text (c ∷ s) ts n m r = rw (m, r)

-- Every list of tokens is read back from its text.
pub split_params-join :
    (ts : List Text) → ts ≢ [] → All IsToken ts → split_params (join ts) ≡ some ts
split_params-join [] n h = absurd (n refl)
split_params-join (t ∷ ts) n h =
    let (m, r) = tokens_complete t ts h.0 h.1 in
    split_params_text _ (t ∷ ts) (join-ne-nil t ts h.0.0) m r
