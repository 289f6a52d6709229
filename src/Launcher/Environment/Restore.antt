-- ===== src/Launcher/Environment/Restore.antt =====
-- What a program that is run with `env` leaves of the environment.
use Prim.Native.String.{String}
use text.Mathlib.TextEquality.{eq_iff}
use bluefog.Common.{
  ◌≡◌, refl, arith, Bool, true, false, not, ◌&&◌, ◌||◌, if◌then◌else◌, Option, none, some, [], ◌∷◌,
  ok, Option-cases, inl, inr,
}
use bluefog.Common.Names.{
  Names, same_name, lookup_name, assign_name, delete_name, lookup_name-assign_name,
  lookup_name-delete_name,
}
use bluefog.Common.Stateful.{M}
use bluefog.Launcher.Environment.{Environ, without_none, backup_of, set_all, restore, env}

-- Whether a name is a key.
abbrev pub is_key : {V : Type 0} → String → Names V → Bool
is_key name [] = false
is_key name ((k, v) ∷ rest) = same_name k name || is_key name rest

-- No key stands twice.
abbrev pub distinct_keys : {V : Type 0} → Names V → Bool
distinct_keys [] = true
distinct_keys ((k, v) ∷ rest) = not (is_key k rest) && distinct_keys rest

-- Each key is set.
abbrev pub all_set : Names String → Environ → Bool
all_set [] environ = true
all_set ((k, v) ∷ rest) environ = elim (lookup_name k environ) [
  | none ↦ false
  | some w ↦ all_set rest environ
]

all_set-same :
    (given : Names String) (e e' : Environ)
    → ((k : String) → is_key k given ≡ true → lookup_name k e' ≡ lookup_name k e)
    → all_set given e ≡ true
    → all_set given e' ≡ true
all_set-same [] e e' h a = refl
all_set-same ((k, v) ∷ rest) e e' h a =
    let first = h k (ground (arith, eq_iff k k)) in
    let others = all_set-same rest e e' (λ j m. h j (ground arith)) in
    elim (Option-cases (lookup_name k e)) [
      | inl missing ↦ absurd (ground (arith, missing))
      | inr (w, there) ↦ ground (arith, first, there, others)
    ]

-- After the values have been restored, a key has the value that it had before.
restore-backup :
    (given : Names String) (before inside : Environ)
    → distinct_keys given ≡ true
    → all_set given inside ≡ true
    → let (result, after) = restore (backup_of given before) inside in
      (result ≡ ok tt)
      × ((k : String)
          → lookup_name k after
            ≡ (if is_key k given then lookup_name k before else lookup_name k inside))
restore-backup [] before inside d a = (refl, λ k. refl)
restore-backup ((k, v) ∷ rest) before inside d a = elim (Option-cases (lookup_name k inside)) [
  | inl missing ↦ absurd (ground (arith, missing))
  | inr (here, there) ↦ elim (Option-cases (lookup_name k before)) [
    | inr (w, had) ↦
        let mid = assign_name k w inside in
        let kept = λ (j : String). lookup_name-assign_name j k w inside in
        let apart : (j : String) → is_key j rest ≡ true → same_name k j ≡ false =
          λ j m. ground (arith, d, eq_iff k j) in
        let still =
          all_set-same rest inside mid (λ j m. ground (arith, kept j, apart j m))
            (ground (arith, there)) in
        let (ran, back) = restore-backup rest before mid (ground arith) still in
        let whole : restore (backup_of ((k, v) ∷ rest) before) inside
            ≡ restore (backup_of rest before) mid =
          ground (arith, had) in
        rw whole (ran, λ j. ground (arith, back j, kept j, had, eq_iff k j))
    | inl new ↦
        let mid = delete_name k inside in
        let kept = λ (j : String). lookup_name-delete_name j k inside in
        let apart : (j : String) → is_key j rest ≡ true → same_name k j ≡ false =
          λ j m. ground (arith, d, eq_iff k j) in
        let still =
          all_set-same rest inside mid (λ j m. ground (arith, kept j, apart j m))
            (ground (arith, there)) in
        let (ran, back) = restore-backup rest before mid (ground arith) still in
        let whole : restore (backup_of ((k, v) ∷ rest) before) inside
            ≡ restore (backup_of rest before) mid =
          ground (arith, new, there) in
        rw whole (ran, λ j. ground (arith, back j, kept j, new, eq_iff k j))
  ]
]

-- If the keys are distinct and still set when the body ends, then the body's result or exception
-- is what `env` gives, each of the keys has the value that it had before or none, and the other
-- variables are as the body left them.
pub env-restores :
    {A : Type 0} (kwargs : Names (Option String)) (body : M Environ A) (before : Environ)
    → let given = without_none kwargs in
      let (result, inside) = body (set_all given before) in
      let (result', after) = env kwargs body before in
      distinct_keys given ≡ true
      → all_set given inside ≡ true
      → (result' ≡ result)
        × ((k : String)
            → lookup_name k after
              ≡ (if is_key k given then lookup_name k before else lookup_name k inside))
unfolding env
env-restores kwargs body before d a =
    let given = without_none kwargs in
    let inside = (body (set_all given before)).1 in
    let (ran, back) = restore-backup given before inside d a in (ground (arith, ran), back)
