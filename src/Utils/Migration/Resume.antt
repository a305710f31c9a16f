-- ===== src/Utils/Migration/Resume.antt =====
-- Exec against its specification: the steps that are missing, in their order.
use go_mini_opera.Prelude.{
  ◌≡◌, ◌≢◌, refl, sym, ap, ◌∙◌, arith, Bool, true, false, Option, none, some, List, [], ◌∷◌, ◌++◌,
  All, inl, inr, Bool-cases, ◌⊎◌,
}
use go_mini_opera.Utils.Migration.{
  Str, str_eq, ExecError, unknown_version, exec_failed, Step, Migration, begin, next, Store,
  apply_step, and_then, exec_migrations,
}

pub str_eq_sound : (a b : Str) → str_eq a b ≡ true → a ≡ b
unfolding str_eq
str_eq_sound [] [] h = refl
str_eq_sound [] (y ∷ ys) h = cc
str_eq_sound (x ∷ xs) [] h = cc
str_eq_sound (x ∷ xs) (y ∷ ys) h = elim (Bool-cases (str_eq xs ys)) [
  | inl same ↦ let tail : xs ≡ ys = str_eq_sound xs ys same in let head : x ≡ y = ground arith in cc
  | inr differ ↦ absurd (ground arith)
]

pub str_eq_refl : (a : Str) → str_eq a a ≡ true
unfolding str_eq
str_eq_refl [] = refl
str_eq_refl (x ∷ xs) = let rest = str_eq_refl xs in ground arith

pub str_eq_ne : (a b : Str) → a ≢ b → str_eq a b ≡ false
str_eq_ne a b differ = elim (Bool-cases (str_eq a b)) [
  | inl same ↦ absurd (differ (str_eq_sound a b same))
  | inr h ↦ h
]

module _ {S : Type 0} (digest : Str → Str) where
  -- The specification: the steps from left to right, until one fails. The id is that of the last
  -- one that did not.
  unfoldable pub apply_steps : List (Step S) → Store S → Option ExecError × Store S
  apply_steps [] curr = (none, curr)
  apply_steps (s ∷ ss) curr = and_then (apply_step digest s curr) (λ done. apply_steps ss done)

  -- A chain with more steps, the newest first.
  unfoldable pub extend : Migration S → List (Step S) → Migration S
  extend m [] = m
  extend m (s ∷ newest) = next (extend m newest) s

  abbrev pub oldest_first : List (Step S) → List (Step S)
  oldest_first [] = []
  oldest_first (s ∷ newest) = oldest_first newest ++ (s ∷ [])

  -- The chain's last migration is the last one that the store has seen.
  unfoldable pub IsAt : Migration S → Store S → Type 0
  IsAt (begin name) curr = curr.id ≡ []
  IsAt (next prev s) curr = curr.id ≡ digest s.name

  and_then_assoc :
      (r : Option ExecError × Store S) (f g : Store S → Option ExecError × Store S)
      → and_then (and_then r f) g ≡ and_then r (λ c. and_then (f c) g)
  unfolding and_then
  and_then_assoc (some err, curr) f g = refl
  and_then_assoc (none, curr) f g = refl

  and_then_congr :
      (r : Option ExecError × Store S) (f g : Store S → Option ExecError × Store S)
      → ((c : Store S) → f c ≡ g c)
      → and_then r f ≡ and_then r g
  unfolding and_then
  and_then_congr (some err, curr) f g same = refl
  and_then_congr (none, curr) f g same = same curr

  and_then-none : (r : Option ExecError × Store S) → and_then r (λ c. (none, c)) ≡ r
  unfolding and_then
  and_then-none (some err, curr) = refl
  and_then-none (none, curr) = refl

  apply_steps-snoc :
      (ss : List (Step S)) (s : Step S) (curr : Store S)
      → apply_steps (ss ++ (s ∷ [])) curr ≡ and_then (apply_steps ss curr) (apply_step digest s)
  unfolding apply_steps and_then
  apply_steps-snoc [] s curr = and_then-none (apply_step digest s curr)
  apply_steps-snoc (t ∷ ss) s curr =
      and_then_congr (apply_step digest t curr) _ _ (λ c. apply_steps-snoc ss s c)
      ∙ sym
          (and_then_assoc (apply_step digest t curr) (λ c. apply_steps ss c) (apply_step digest s))

  at_last :
      (m : Migration S) (curr : Store S)
      → IsAt m curr
      → exec_migrations digest m curr ≡ (none, curr)
  unfolding exec_migrations IsAt str_eq
  at_last (begin name) curr at =
      let same : str_eq curr.id [] ≡ true = ap (λ i. str_eq i []) at in ground arith
  at_last (next prev s) curr at =
      let same : str_eq curr.id (digest s.name) ≡ true =
        ap (λ i. str_eq i (digest s.name)) at ∙ str_eq_refl (digest s.name) in
      ground arith

  -- A store that is at the last migration of a chain, whose id none of the migrations that follow
  -- has, is brought forward by exactly those that follow, each once and in their order, until one
  -- fails.
  pub exec_migrations-extend :
      (m : Migration S) (newest : List (Step S)) (curr : Store S)
      → IsAt m curr
      → All (λ s. curr.id ≢ digest s.name) newest
      → exec_migrations digest (extend m newest) curr ≡ apply_steps (oldest_first newest) curr
  unfolding exec_migrations extend apply_steps
  exec_migrations-extend m [] curr at later = at_last m curr at
  exec_migrations-extend m (s ∷ newest) curr at (differs, later) =
      rw
        (
          str_eq_ne curr.id (digest s.name) differs,
          exec_migrations-extend m newest curr at later,
          apply_steps-snoc (oldest_first newest) s curr,
        )
        refl

  -- When a store's id is not empty and is the id of no migration of the chain, Exec returns an
  -- error and leaves the store as it is.
  pub exec_migrations-unknown :
      (name : Str) (newest : List (Step S)) (curr : Store S)
      → curr.id ≢ []
      → All (λ s. curr.id ≢ digest s.name) newest
      → exec_migrations digest (extend (begin name) newest) curr ≡ (some unknown_version, curr)
  unfolding exec_migrations extend and_then
  exec_migrations-unknown name [] curr nonempty later = rw (str_eq_ne curr.id [] nonempty) refl
  exec_migrations-unknown name (s ∷ newest) curr nonempty (differs, later) =
      rw
        (
          str_eq_ne curr.id (digest s.name) differs,
          exec_migrations-unknown name newest curr nonempty later,
        )
        refl

  -- The two outcomes of a step.
  pub apply_step-cases :
      (s : Step S) (curr : Store S)
      → ((c : S) × (s.exec curr.content ≡ (true, c))
          × (apply_step digest s curr ≡ (none, record { id = digest s.name; content = c })))
        ⊎ ((c : S) × (s.exec curr.content ≡ (false, c))
            × (apply_step digest s curr ≡ (some exec_failed, record curr { content = c })))
  unfolding apply_step
  apply_step-cases s curr = by_outcome (s.exec curr.content) refl
    where
      by_outcome :
          (r : Bool × S)
          → s.exec curr.content ≡ r
          → ((c : S) × (s.exec curr.content ≡ (true, c))
              × (apply_step digest s curr ≡ (none, record { id = digest s.name; content = c })))
            ⊎ ((c : S) × (s.exec curr.content ≡ (false, c))
                × (apply_step digest s curr ≡ (some exec_failed, record curr { content = c })))
      by_outcome (true, c) e = inl (c, e, rw e refl)
      by_outcome (false, c) e = inr (c, e, rw e refl)

  and_then_at :
      (s : Step S) (r : Option ExecError × Store S) (after : Store S)
      → and_then r (apply_step digest s) ≡ (none, after)
      → after.id ≡ digest s.name
  unfolding and_then
  and_then_at s (some err, curr) after h = absurd cc
  and_then_at s (none, curr) after h = elim (apply_step-cases s curr) [
    | inl (c, ran, step) ↦ sym (ap (λ r. r.1.id) (sym step ∙ h))
    | inr (c, failed, step) ↦ absurd cc
  ]

  exec_migrations-IsAt :
      (m : Migration S) (curr after : Store S)
      → exec_migrations digest m curr ≡ (none, after)
      → IsAt m after
  unfolding exec_migrations IsAt
  exec_migrations-IsAt (begin name) curr after h = elim (Bool-cases (str_eq curr.id [])) [
    | inl same ↦ sym (ap (λ r. r.1.id) (rw same at h)) ∙ str_eq_sound curr.id [] same
    | inr differ ↦ absurd (ground arith)
  ]
  exec_migrations-IsAt (next prev s) curr after h =
      elim (Bool-cases (str_eq curr.id (digest s.name))) [
        | inl same ↦
            sym (ap (λ r. r.1.id) (rw same at h)) ∙ str_eq_sound curr.id (digest s.name) same
        | inr differ ↦ and_then_at s (exec_migrations digest prev curr) after (rw differ at h)
      ]

  -- When Exec returns nil, executing the chain again on the store that it left does nothing and
  -- returns nil.
  pub exec_migrations_twice :
      (m : Migration S) (curr after : Store S)
      → exec_migrations digest m curr ≡ (none, after)
      → exec_migrations digest m after ≡ (none, after)
  exec_migrations_twice m curr after h = at_last m after (exec_migrations-IsAt m curr after h)
