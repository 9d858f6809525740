-- ===== src/Prelude/Result.antt =====
-- Python functions that may raise, and methods that may raise and change an object. What was
-- written before a raise stays written, so the state comes back beside the error too.
use Prim.Native.String.{String}
use mathlib.Core.Path.{◌≡◌, ap}

pub data PyError : Type 0 where
  key_error type_error value_error attribute_error index_error : PyError
  -- `RankingError` of rescan/pipeline/rank.py, with its text
  ranking_error : String → PyError
  -- another exception of the program or of a library, with its text
  raised : String → PyError

pub data Result {ℓ} (A : Type ℓ) : Type ℓ where
  ok : A → Result A
  err : PyError → Result A

-- a call whose own exception the caller handles, with the text of the exception
pub data Attempt (A : Type 0) : Type 0 where
  done : A → Attempt A
  declined : String → Attempt A

module _ {ℓ κ} {A : Type ℓ} {B : Type κ} where
  abbrev pub bind : Result A → (A → Result B) → Result B
  bind (ok a) f = f a
  bind (err e) f = err e

abbrev pub Exec {ℓ} : Type 0 → Type ℓ → Type ℓ
Exec S A = S → Result A × S

module _ {ℓ} {S : Type 0} {A : Type ℓ} where
  abbrev pub pure : A → Exec S A
  pure a s = (ok a, s)

  abbrev pub raise : PyError → Exec S A
  raise e s = (err e, s)

  abbrev pub lift : Result A → Exec S A
  lift r s = (r, s)

module _ {ℓ κ} {S : Type 0} {A : Type ℓ} {B : Type κ} where
  abbrev pub continue : Result A → (A → Exec S B) → Exec S B
  continue (ok a) f s = f a s
  continue (err e) f s = (err e, s)

  infixl 5 ◌>>=◌ ◌>>◌
  abbrev pub ◌>>=◌ : Exec S A → (A → Exec S B) → Exec S B
  ◌>>=◌ m f s = let (r, s') = m s in continue r f s'

  abbrev pub ◌>>◌ : Exec S A → Exec S B → Exec S B
  m >> n = m >>= λ _. n

pub bind-ok :
    {S A B : Type 0} (m : Exec S A) (f : A → Exec S B) (s : S) {a : A}
    → (m s).0 ≡ ok a
    → (m >>= f) s ≡ f a (m s).1
bind-ok m f s e = rw e

-- What holds after the first part, whether it raises or not, holds of the whole.
pub bind_elim {κ} :
    {S A B : Type 0} (P : Result B × S → Type κ) (m : Exec S A) (f : A → Exec S B) (s : S)
    → ((a : A) → (m s).0 ≡ ok a → P (f a (m s).1))
    → ((x : PyError) → P (err x, (m s).1))
    → P ((m >>= f) s)
bind_elim {A} {B} P m f s given stopped = go (m s).0 given
  where
    go : (r : Result A) → ((a : A) → r ≡ ok a → P (f a (m s).1)) → P (continue r f (m s).1)
    go (ok a) k = k a (λ i. ok a)
    go (err x) k = stopped x

pub ok-injective : {A : Type 0} (a b : A) → ok a ≡ ok b → a ≡ b
ok-injective a b h = ap (elim [ ok x ↦ x | err e ↦ a ]) h
