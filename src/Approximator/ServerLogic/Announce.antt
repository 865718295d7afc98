-- ===== src/Approximator/ServerLogic/Announce.antt =====
-- Telling the known players of the scores.
use mathlib.Core.Option
use mathlib.Core.Path.{subst}
use computer_networks_course.Prelude.{
  ℕ, suc, ◌+◌, ◌≡◌, refl, sym, ap, ◌∙◌, inl, inr, true, false, some, [], ◌∷◌, ◌++◌, ◌==◌,
  if◌then◌else◌, if_true, if_false, Bool-cases, Text,
}
use computer_networks_course.Approximator.ServerLogic.Players.{
  PlayerInfo, Players, lookup, Rising, Every, puts,
}
use computer_networks_course.Approximator.ServerLogic.Score.{announce}

-- Each known player has got `msg` behind its other messages, and nothing else has changed.
pub data Delivered {F : Type 0} (msg : Text) : Players F → Players F → Type 0 where
  nobody : Delivered msg [] []
  told_known :
      {fd : ℕ} {p : PlayerInfo F} {ps qs : Players F}
      → p.is_known ≡ true
      → Delivered msg ps qs
      → Delivered msg ((fd, p) ∷ ps) ((fd, record p { messages = p.messages ++ msg ∷ [] }) ∷ qs)
  kept_unknown :
      {fd : ℕ} {p : PlayerInfo F} {ps qs : Players F}
      → p.is_known ≡ false
      → Delivered msg ps qs
      → Delivered msg ((fd, p) ∷ ps) ((fd, p) ∷ qs)

pub announce-Delivered :
    {F : Type 0} → (msg : Text) (ps : Players F) → Delivered msg ps (announce msg ps)
unfolding announce
announce-Delivered msg [] = Delivered.nobody
announce-Delivered msg ((fd, p) ∷ ps) = elim (Bool-cases p.is_known) [
  | inl e ↦
      subst (λ q. Delivered msg ((fd, p) ∷ ps) ((fd, q) ∷ announce msg ps)) (sym (if_true _ _ e))
        (Delivered.told_known e (announce-Delivered msg ps))
  | inr e ↦
      subst (λ q. Delivered msg ((fd, p) ∷ ps) ((fd, q) ∷ announce msg ps)) (sym (if_false _ _ e))
        (Delivered.kept_unknown e (announce-Delivered msg ps))
]

-- Telling the players of the scores changes their message queues only.
module _ {F : Type 0} where
  pub announce-Rising :
      (msg : Text) (lo : ℕ) (ps : Players F) → Rising lo ps → Rising lo (announce msg ps)
  unfolding announce
  announce-Rising msg lo [] r = tt
  announce-Rising msg lo ((k, p) ∷ ps) r = (r.0, announce-Rising msg (suc k) ps r.1)

  pub puts-announce : (msg : Text) (ps : Players F) → puts (announce msg ps) ≡ puts ps
  unfolding announce
  puts-announce msg [] = refl
  puts-announce msg ((k, p) ∷ ps) = elim (Bool-cases p.is_known) [
    | inl e ↦
        ap (λ (x : PlayerInfo F). x.correct_puts + puts (announce msg ps)) (if_true _ _ e)
        ∙ ap (λ (n : ℕ). p.correct_puts + n) (puts-announce msg ps)
    | inr e ↦
        ap (λ (x : PlayerInfo F). x.correct_puts + puts (announce msg ps)) (if_false _ _ e)
        ∙ ap (λ (n : ℕ). p.correct_puts + n) (puts-announce msg ps)
  ]

  -- The player after the announcement.
  abbrev pub told : Text → PlayerInfo F → PlayerInfo F
  told msg p = if p.is_known then record p { messages = p.messages ++ msg ∷ [] } else p

  pub lookup-announce :
      (fd : ℕ) (msg : Text) (ps : Players F) (p : PlayerInfo F)
      → lookup fd ps ≡ some p
      → lookup fd (announce msg ps) ≡ some (told msg p)
  unfolding announce lookup
  lookup-announce fd msg [] p e = absurd (cc e)
  lookup-announce fd msg ((k, q) ∷ ps) p e = elim (Bool-cases (k == fd)) [
    | inl h ↦
        let same : some q ≡ some p = sym (if_true _ _ h) ∙ e in
        if_true _ _ h ∙ ap (Option.map (told msg)) same
    | inr h ↦ if_false _ _ h ∙ lookup-announce fd msg ps p (sym (if_false _ _ h) ∙ e)
  ]

  pub Every-announce {ℓ} :
      (P : PlayerInfo F → Type ℓ) (msg : Text) (ps : Players F)
      → ((p : PlayerInfo F) → P p → P (record p { messages = p.messages ++ msg ∷ [] }))
      → Every P ps
      → Every P (announce msg ps)
  unfolding announce
  Every-announce P msg [] k h = tt
  Every-announce P msg ((fd, p) ∷ ps) k h = elim (Bool-cases p.is_known) [
    | inl e ↦ (subst P (sym (if_true _ _ e)) (k p h.0), Every-announce P msg ps k h.1)
    | inr e ↦ (subst P (sym (if_false _ _ e)) h.0, Every-announce P msg ps k h.1)
  ]
