-- ===== src/Methods/Register.antt =====
-- ProtobufConnection.cpp, `RegisterService`: what the table of handlers then holds.
use tt3d.Base.{
  Option-cases, Bool-cases, ℕ, ◌≡◌, refl, arith, true, List, [], ◌∷◌, Option, none, some, All, ◌==◌,
  ◌⊎◌, inl, inr,
}
use tt3d.Wire.{Bytes}
use tt3d.Methods.{Service, HandlerTable, find_method, register_methods, register_service}

-- A connection with no service yet has no handlers.
abbrev pub rows : Option HandlerTable → HandlerTable
rows none = []
rows (some table) = table

clash : {o : Option ℕ} {other : ℕ} → o ≡ none → o ≡ some other → ⊥
clash e f = cc

found : (key m : ℕ) (t : HandlerTable) → find_method key ((key, m) ∷ t) ≡ some m
unfolding find_method
found key m t = ground arith

kept :
    (key m : ℕ) (t : HandlerTable) (id method : ℕ)
    → find_method key t ≡ none
    → find_method id t ≡ some method
    → find_method id ((key, m) ∷ t) ≡ some method
unfolding find_method
kept key m t id method h e = elim (Bool-cases (id == key)) [
  | inl q ↦ absurd (clash (rw (same_key q) h) e)
  | inr q ↦ rw q e
]
  where
    same_key : (id == key) ≡ true → id ≡ key
    same_key q = ground arith

module _ (hash : Bytes → ℕ) (s : Service) where
  -- The methods have different fingerprints, none of which the table has.
  abbrev pub IsNew : List ℕ → HandlerTable → Type 0
  IsNew [] table = Unit
  IsNew (m ∷ ms) table =
      (find_method (hash (s.full_name m)) table ≡ none)
      × IsNew ms ((hash (s.full_name m), m) ∷ table)

  -- What is registered: the methods of the table before, and the new ones under their fingerprints.
  pub record Holds (ms : List ℕ) (old new : HandlerTable) : Type 0 where
    pub methods : All (λ m. find_method (hash (s.full_name m)) new ≡ some m) ms
    pub earlier :
        (id method : ℕ) → find_method id old ≡ some method → find_method id new ≡ some method

  register_methods-cases :
      (ms : List ℕ) (old : HandlerTable)
      → (IsNew ms old
          × ((new : HandlerTable) × (register_methods hash s ms old ≡ some new) × Holds ms old new))
        ⊎ ((IsNew ms old → ⊥) × (register_methods hash s ms old ≡ none))
  unfolding register_methods
  register_methods-cases [] old =
      inl (tt, (old, refl, record { methods = tt; earlier = λ id method e. e }))
  register_methods-cases (m ∷ ms) old =
      let key = hash (s.full_name m) in
      elim (Option-cases (find_method key old)) [
        | inr (other, e) ↦ inr (λ n. clash n.0 e, ground (arith, e))
        | inl e ↦ elim (register_methods-cases ms ((key, m) ∷ old)) [
          | inl (n, (new, r, v)) ↦ inl (
            (e, n),
            (
              new,
              ground (arith, e, r),
              record {
                methods = (v.earlier key m (found key m old), v.methods);
                earlier = λ id method f. v.earlier id method (kept key m old id method e f);
              },
            ),
          )
          | inr (n, r) ↦ inr (λ p. n p.1, ground (arith, e, r))
        ]
      ]

  -- Registering a service succeeds exactly if its methods' fingerprints are all different and new; then
  -- each is found under its own, and what was registered before is found as before.
  pub register_service-Holds :
      (table : Option HandlerTable)
      → (IsNew s.methods (rows table)
          × ((new : HandlerTable) × (register_service hash s table ≡ some new)
              × Holds s.methods (rows table) new))
        ⊎ ((IsNew s.methods (rows table) → ⊥) × (register_service hash s table ≡ none))
  unfolding register_service
  register_service-Holds none = register_methods-cases s.methods []
  register_service-Holds (some table) = register_methods-cases s.methods table
