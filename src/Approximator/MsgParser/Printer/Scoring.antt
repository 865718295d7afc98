-- ===== src/Approximator/MsgParser/Printer/Scoring.antt =====
-- The SCORING message: the pairs sorted by id, and read back.
use computer_networks_course.Prelude.{
  ◌≡◌, refl, sym, ap, ◌∙◌, ◌≢◌, inl, inr, true, false, some, List, [], ◌∷◌, ◌++◌, append_assoc,
  arith, Bool-cases, length, All, Text, codes, text_eq,
}
use mathlib.Core.Path.{subst}
use mathlib.Core.List.{Perm}
use mathlib.Core.List.Perm
use computer_networks_course.Approximator.Constants.{Double, crlf}
use computer_networks_course.Approximator.MsgParser.Chars.{is_alphanumeric}
use computer_networks_course.Approximator.MsgParser.Params.Laws.{IsToken, join}
use computer_networks_course.Approximator.MsgParser.Message.{
  Message, scoring, parse_scores, parse_scoring, parse_message, create_message_with_crlf,
}
use computer_networks_course.Approximator.MsgParser.Message.Laws.{line_of, create_message_line}
use computer_networks_course.Approximator.MsgParser.Printer.{
  pop_back, double_to_string, text_lt, score_lt, insert_score, sort_scores, pair_scores,
  write_scores, create_scoring,
}
use computer_networks_course.Approximator.MsgParser.Printer.Laws.{
  Printable, pop_back-concat, alphanumeric-param, parse_double-print, print-IsToken,
}

-- An id that HELLO accepts.
abbrev pub IsId : Text → Type 0
IsId i = (i ≢ []) × (is_alphanumeric i ≡ true)

id-IsToken : (i : Text) → IsId i → IsToken i
id-IsToken i h = (h.0, alphanumeric-param i h.1)

text_lt-nil : (s : Text) → text_lt s [] ≡ false
unfolding text_lt
text_lt-nil [] = refl
text_lt-nil (c ∷ s) = refl

text_lt_asymm : (s t : Text) → text_lt s t ≡ true → text_lt t s ≡ false
unfolding text_lt
text_lt_asymm s [] h = absurd (cc (sym (text_lt-nil s) ∙ h))
text_lt_asymm [] (y ∷ t) h = refl
text_lt_asymm (x ∷ s) (y ∷ t) h = ground (arith, text_lt_asymm s t)

module _ {F : Type 0} ⦃d : Double F⦄ where
  -- The parameters of the message.
  abbrev pub fields : List (Text × F) → List Text
  fields [] = []
  fields ((i, s) ∷ ps) = i ∷ double_to_string s ∷ fields ps

  abbrev pub ids_of : List (Text × F) → List Text
  ids_of [] = []
  ids_of ((i, s) ∷ ps) = i ∷ ids_of ps

  abbrev pub scores_of : List (Text × F) → List F
  scores_of [] = []
  scores_of ((i, s) ∷ ps) = s ∷ scores_of ps

  write_scores-join :
      (i : Text) (s : F) (ps : List (Text × F))
      → write_scores ((i, s) ∷ ps) ≡ join (fields ((i, s) ∷ ps)) ++ b' ' ∷ []
  unfolding write_scores join
  write_scores-join i s [] = sym (append_assoc i (b' ' ∷ double_to_string s) (b' ' ∷ []))
  write_scores-join i s ((j, u) ∷ ps) =
      ap (λ r. i ++ (b' ' ∷ (double_to_string s ++ (b' ' ∷ r)))) (write_scores-join j u ps)
      ∙ simp append_assoc

  pub read_all : Printable d → List (Text × F) → List F
  read_all printable [] = []
  read_all printable ((i, s) ∷ ps) = (printable s).0 ∷ read_all printable ps

  parse_scores-print :
      (printable : Printable d) (ps : List (Text × F))
      → All (λ p. IsId p.0) ps
      → parse_scores (fields ps) ≡ some (ids_of ps, read_all printable ps)
  unfolding parse_scores read_all
  parse_scores-print printable [] h = refl
  parse_scores-print printable ((i, s) ∷ ps) h = rw (
    h.0.1,
    parse_double-print s (printable s).0 (printable s).1,
    parse_scores-print printable ps h.1,
  )

  fields-All :
      (printable : Printable d) (ps : List (Text × F))
      → All (λ p. IsId p.0) ps
      → All IsToken (fields ps)
  fields-All printable [] h = tt
  fields-All printable ((i, s) ∷ ps) h = (
    id-IsToken i h.0,
    (print-IsToken s (printable s).0 (printable s).1, fields-All printable ps h.1),
  )

  insert_score-perm : (p : Text × F) (ps : List (Text × F)) → Perm (insert_score p ps) (p ∷ ps)
  unfolding insert_score
  insert_score-perm p [] = Perm.refl (p ∷ [])
  insert_score-perm p (q ∷ qs) = elim (Bool-cases (score_lt q p)) [
    | inl e ↦ rw e (Perm.trans (Perm.cons q (insert_score-perm p qs)) (Perm.swap p q qs))
    | inr e ↦ rw e (Perm.refl (p ∷ q ∷ qs))
  ]

  -- Sorting loses no player and makes none up.
  pub sort_scores-perm : (ps : List (Text × F)) → Perm (sort_scores ps) ps
  unfolding sort_scores
  sort_scores-perm [] = Perm.refl []
  sort_scores-perm (p ∷ ps) =
      Perm.trans (insert_score-perm p (sort_scores ps)) (Perm.cons p (sort_scores-perm ps))

  insert_score-All {ℓ} :
      (P : Text × F → Type ℓ) (p : Text × F) (ps : List (Text × F))
      → P p
      → All P ps
      → All P (insert_score p ps)
  unfolding insert_score
  insert_score-All P p [] h hs = (h, hs)
  insert_score-All P p (q ∷ qs) h hs = elim (Bool-cases (score_lt q p)) [
    | inl e ↦ rw e (hs.0, insert_score-All P p qs h hs.1)
    | inr e ↦ rw e (h, hs)
  ]

  sort_scores-All {ℓ} :
      (P : Text × F → Type ℓ) (ps : List (Text × F)) → All P ps → All P (sort_scores ps)
  unfolding sort_scores
  sort_scores-All P [] h = tt
  sort_scores-All P (p ∷ ps) h = insert_score-All P p _ h.0 (sort_scores-All P ps h.1)

  -- The ids stand in order, from `b` on.
  abbrev pub SortedFrom : Text → List (Text × F) → Type 0
  SortedFrom b [] = Unit
  SortedFrom b (p ∷ ps) = (text_lt p.0 b ≡ false) × SortedFrom p.0 ps

  not-lt_of_score_lt : (q p : Text × F) → score_lt q p ≡ true → text_lt p.0 q.0 ≡ false
  unfolding score_lt
  not-lt_of_score_lt (a, x) (b, y) h = ground (arith, text_lt_asymm a b)

  not-lt_of_not-score_lt : (q p : Text × F) → score_lt q p ≡ false → text_lt q.0 p.0 ≡ false
  unfolding score_lt
  not-lt_of_not-score_lt (a, x) (b, y) h = ground arith

  insert_score-SortedFrom :
      (b : Text) (p : Text × F) (ps : List (Text × F))
      → text_lt p.0 b ≡ false
      → SortedFrom b ps
      → SortedFrom b (insert_score p ps)
  unfolding insert_score
  insert_score-SortedFrom b p [] h s = (h, tt)
  insert_score-SortedFrom b p (q ∷ qs) h s = elim (Bool-cases (score_lt q p)) [
    | inl e ↦ rw e (s.0, insert_score-SortedFrom q.0 p qs (not-lt_of_score_lt q p e) s.1)
    | inr e ↦ rw e (h, (not-lt_of_not-score_lt q p e, s.1))
  ]

  pub sort_scores-SortedFrom : (ps : List (Text × F)) → SortedFrom [] (sort_scores ps)
  unfolding sort_scores
  sort_scores-SortedFrom [] = tt
  sort_scores-SortedFrom (p ∷ ps) =
      insert_score-SortedFrom [] p _ (text_lt-nil p.0) (sort_scores-SortedFrom ps)

  pair_scores-zip :
      (ids : List Text) (scores : List F)
      → length ids ≡ length scores
      → (ps : List (Text × F)) × (pair_scores ids scores ≡ some ps)
        × (ids_of ps ≡ ids)
        × (scores_of ps ≡ scores)
  unfolding pair_scores
  pair_scores-zip [] [] h = ([], refl, refl, refl)
  pair_scores-zip [] (s ∷ scores) h = absurd (omega arith)
  pair_scores-zip (i ∷ ids) [] h = absurd (omega arith)
  pair_scores-zip (i ∷ ids) (s ∷ scores) h =
      let (ps, e, ei, es) = pair_scores-zip ids scores (omega arith) in
      ((i, s) ∷ ps, rw e, ap (◌∷◌ i) ei, ap (◌∷◌ s) es)

  ids-All : (ps : List (Text × F)) → All IsId (ids_of ps) → All (λ p. IsId p.0) ps
  ids-All [] h = tt
  ids-All ((i, s) ∷ ps) h = (h.0, ids-All ps h.1)

  -- The message of a list of pairs that is not empty.
  scoring_text :
      (printable : Printable d) (ps : List (Text × F))
      → ps ≢ []
      → All (λ p. IsId p.0) ps
      → create_message_with_crlf (pop_back (codes "SCORING " ++ write_scores ps))
        ≡ some (record {
          raw_message = line_of (codes "SCORING") (fields ps) ++ crlf;
          params = fields ps;
          body = scoring (ids_of ps) (read_all printable ps);
        })
  unfolding parse_message text_eq parse_scoring
  scoring_text printable [] n h = absurd (n refl)
  scoring_text printable ((i, s) ∷ ps) n h =
      ap create_message_with_crlf (
        ap (λ r. pop_back (codes "SCORING " ++ r)) (write_scores-join i s ps)
        ∙ pop_back-concat (codes "SCORING " ++ join (fields ((i, s) ∷ ps))) b' ')
      ∙ create_message_line (codes "SCORING") i (double_to_string s ∷ fields ps) _ (λ e. cc)
          (omega arith) (fields-All printable ((i, s) ∷ ps) h)
          (rw (parse_scores-print printable ((i, s) ∷ ps) h))

  perm-ne-nil : (p : Text × F) (ps : List (Text × F)) → insert_score p ps ≢ []
  unfolding insert_score
  perm-ne-nil p [] = λ e. cc
  perm-ne-nil p (q ∷ qs) = elim (Bool-cases (score_lt q p)) [
    | inl e ↦ rw e (λ e'. cc)
    | inr e ↦ rw e (λ e'. cc)
  ]

  sort-ne-nil : (ps : List (Text × F)) → ps ≢ [] → sort_scores ps ≢ []
  unfolding sort_scores
  sort-ne-nil [] n = absurd (n refl)
  sort-ne-nil (p ∷ ps) n = perm-ne-nil p (sort_scores ps)

  -- For at least one id, all of them valid, and as many scores there is a SCORING message; it lists
  -- the pairs of an id and its score in the order of their ids, each once, and reads back as those
  -- ids and, for each score, the value that its print gives. Values print as decimals that read
  -- back.
  pub create_scoring_total :
      (printable : Printable d) (ids : List Text) (scores : List F)
      → ids ≢ []
      → length ids ≡ length scores
      → All IsId ids
      → (ps : List (Text × F)) × (ids_of ps ≡ ids)
        × (scores_of ps ≡ scores)
        × (m : Message F) × (create_scoring ids scores ≡ some m)
        × (m.body ≡ scoring (ids_of (sort_scores ps)) (read_all printable (sort_scores ps)))
        × (m.raw_message ≡ line_of (codes "SCORING") (fields (sort_scores ps)) ++ crlf)
        × Perm (sort_scores ps) ps
        × SortedFrom [] (sort_scores ps)
  unfolding create_scoring
  create_scoring_total printable ids scores n same h =
      let (ps, e, ei, es) = pair_scores-zip ids scores same in
      let some_pair : ps ≢ [] = λ z. n (sym ei ∙ ap ids_of z) in
      let all_ids : All (λ p. IsId p.0) ps = ids-All ps (subst (All IsId) (sym ei) h) in
      let text =
        scoring_text printable (sort_scores ps) (sort-ne-nil ps some_pair)
          (sort_scores-All (λ p. IsId p.0) ps all_ids) in
      let msg : Message F = record {
        raw_message = line_of (codes "SCORING") (fields (sort_scores ps)) ++ crlf;
        params = fields (sort_scores ps);
        body = scoring (ids_of (sort_scores ps)) (read_all printable (sort_scores ps));
      } in
      (ps, ei, es, msg, rw e text, refl, refl, sort_scores-perm ps, sort_scores-SortedFrom ps)
