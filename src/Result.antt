-- ===== src/Result.antt =====
-- The exceptions that the modelled code raises or catches, and computations that may raise one.
use heron_mail.Prelude.{ℕ, String, ◌≡◌, refl, ap, Bool, true, false, List, [], ◌∷◌}

pub data Error : Type 0 where
  value_error : String → Error
  overflow_error : Error
  integrity_error : Error
  no_result_found : Error
  key_error : Error
  os_error : Error
  secret_box_error : Error
  invalid_transition : String → Error
  imap_connection_error : String → Error
  http_exception : ℕ → String → Error
  -- any other exception: the name of its type and its text
  other_error : String → String → Error

pub data Result {ℓ} (A : Type ℓ) : Type ℓ where
  ok : A → Result A
  err : Error → Result A

-- The statement after one that may raise.
infixl 4 ◌>>=◌
abbrev pub ◌>>=◌ {κ μ} : {X : Type κ} {Y : Type μ} → Result X → (X → Result Y) → Result Y
err raised >>= next = err raised
ok value >>= next = next value

-- `if not b: raise e`
abbrev pub require : Bool → Error → Result (Unit {0})
require passes raised = elim passes [ true ↦ ok tt | false ↦ err raised ]

-- A statement whose value is not used.
infixl 4 ◌>>◌
abbrev pub ◌>>◌ {κ} : {Y : Type κ} → Result (Unit {0}) → Result Y → Result Y
first >> after = first >>= λ done. after

-- A list comprehension whose body may raise.
abbrev pub traverse {ℓ κ} : {A : Type ℓ} {B : Type κ} → (A → Result B) → List A → Result (List B)
traverse f [] = ok []
traverse f (x ∷ xs) = f x >>= λ y. traverse f xs >>= λ ys. ok (y ∷ ys)

-- What a computation that succeeded did first.
pub bind-ok {ℓ κ} :
    {A : Type ℓ} {B : Type κ} (m : Result A) (f : A → Result B) (b : B)
    → (m >>= f) ≡ ok b
    → (a : A) × (m ≡ ok a) × (f a ≡ ok b)
bind-ok (ok a) f b e = (a, refl, e)
bind-ok (err x) f b e = cc

ok_value {ℓ} : {A : Type ℓ} → A → Result A → A
ok_value d (ok a) = a
ok_value d (err x) = d

pub ok-injective {ℓ} : {A : Type ℓ} (a b : A) → ok a ≡ ok b → a ≡ b
unfolding ok_value
ok-injective a b e = ap (ok_value a) e
