-- ===== src/Auth/Roles.antt =====
-- The set of roles that packages/auth/src/index.ts makes of raw role names.
use hy_fib_wa_app.Prelude.{
  ◌≡◌, ◌↔◌, subst, true, List, [], ◌∷◌, ◌++◌, arith, Text, All, All-append, Bool-cases, inl, inr,
}
use hy_fib_wa_app.Auth.{Role, role_eq, holds, expand, add, add_all, collect, normalize_roles}

pub role_eq_iff : (a b : Role) → (role_eq a b ≡ true) ↔ (a ≡ b)
unfolding role_eq
role_eq_iff a b = ground arith

module _ {ℓ} (Q : Role → Type ℓ) where
  pub All-holds : (roles : List Role) (r : Role) → All Q roles → holds roles r ≡ true → Q r
  unfolding holds
  All-holds [] r h e = cc
  All-holds (x ∷ roles) r (q, h) e = elim (Bool-cases (role_eq x r)) [
    | inl y ↦ subst Q ((role_eq_iff x r).0 y) q
    | inr n ↦ All-holds roles r h (ground arith)
  ]

  add-All : (r : Role) (set : List Role) → Q r → All Q set → All Q (add r set)
  unfolding add
  add-All r set q h = elim (Bool-cases (holds set r)) [
    | inl y ↦ rw y h
    | inr n ↦ rw n (All-append Q set (r ∷ []) h (q, tt))
  ]

  add_all-All : (rs set : List Role) → All Q rs → All Q set → All Q (add_all rs set)
  unfolding add_all
  add_all-All [] set h k = k
  add_all-All (r ∷ rs) set (q, h) k = add_all-All rs (add r set) h (add-All r set q k)

  pub collect-All :
      (set : List Role) (raws : List Text)
      → All Q set
      → All (λ raw. All Q (expand raw)) raws
      → All Q (collect set raws)
  unfolding collect
  collect-All set [] h k = h
  collect-All set (raw ∷ raws) h (k, ks) =
      collect-All (add_all (expand raw) set) raws (add_all-All (expand raw) set k h) ks

  All-of_append : (xs ys : List Role) → All Q (xs ++ ys) → All Q xs × All Q ys
  All-of_append [] ys h = (tt, h)
  All-of_append (x ∷ xs) ys (q, h) = let (a, b) = All-of_append xs ys h in ((q, a), b)

  All-of_add : (r : Role) (set : List Role) → All Q (add r set) → Q r × All Q set
  unfolding add
  All-of_add r set h = elim (Bool-cases (holds set r)) [
    | inl y ↦ let k = rw y at h in (All-holds set r k y, k)
    | inr n ↦ let (a, b) = All-of_append set (r ∷ []) (rw n at h) in (b.0, a)
  ]

  pub All-of_add_all : (rs set : List Role) → All Q (add_all rs set) → All Q rs × All Q set
  unfolding add_all
  All-of_add_all [] set h = (tt, h)
  All-of_add_all (r ∷ rs) set h =
      let (later, k) = All-of_add_all rs (add r set) h in
      let (q, before) = All-of_add r set k in ((q, later), before)

  -- What holds of all that one name stands for.
  pub All-of_normalize : (raw : Text) → All Q (normalize_roles (raw ∷ [])) → All Q (expand raw)
  unfolding normalize_roles collect
  All-of_normalize raw h = (All-of_add_all (expand raw) [] h).0
