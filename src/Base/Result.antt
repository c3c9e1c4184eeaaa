-- ===== src/Base/Result.antt =====
-- Go's `(T, error)`. An error keeps the text and what the code asks of it: the status that
-- `apierrors.IsNotFound` and `grpcstatus.FromError` read, and the chain that `%w` (not `%s`) keeps.
use Prim.Native.Nat.{ℕ}
use Prim.Native.String.{String, ◌++◌}
use mathlib.Core.Bool.{Bool, true, false}
use mathlib.Core.Option.{Option, none}

pub data Error : Type 0 where
  -- errors.New, or fmt.Errorf over texts alone
  message : String → Error
  -- fmt.Errorf("text: %s", err)
  because : String → Error → Error
  -- fmt.Errorf("%w: text", err)
  wrapping : Error → String → Error
  -- fmt.Errorf("text: %w", err)
  chained : String → Error → Error
  -- an error of the Kubernetes API or of the file system: whether it says that the thing is not
  -- there, and its text
  kube : Bool → String → Error
  -- an error of the ArgoCD API: its gRPC status, if it has one, and its text
  grpc : Option ℕ → String → Error
  -- an error of the Kubernetes API that says that the thing is there already
  already_exists : String → Error

pub data Result {ℓ} (A : Type ℓ) : Type ℓ where
  ok : A → Result A
  err : Error → Result A

-- `err == nil`
abbrev pub is_ok {ℓ} : {A : Type ℓ} → Result A → Bool
is_ok (ok a) = true
is_ok (err e) = false

-- `err.Error()`
unfoldable pub text : Error → String
text (message t) = t
text (because t e) = t ++ ": " ++ text e
text (wrapping e t) = text e ++ ": " ++ t
text (chained t e) = t ++ ": " ++ text e
text (kube _ t) = t
text (grpc _ t) = t
text (already_exists t) = t

-- `apierrors.IsNotFound(err)`
unfoldable pub is_not_found : Error → Bool
is_not_found (message _) = false
is_not_found (because _ _) = false
is_not_found (wrapping e _) = is_not_found e
is_not_found (chained _ e) = is_not_found e
is_not_found (kube gone _) = gone
is_not_found (grpc _ _) = false
is_not_found (already_exists _) = false

-- `grpcstatus.FromError(err)`, and the status' code
unfoldable pub grpc_code : Error → Option ℕ
grpc_code (message _) = none
grpc_code (because _ _) = none
grpc_code (wrapping e _) = grpc_code e
grpc_code (chained _ e) = grpc_code e
grpc_code (kube _ _) = none
grpc_code (grpc c _) = c
grpc_code (already_exists _) = none

-- `apierrors.IsAlreadyExists(err)`
unfoldable pub is_already_exists : Error → Bool
is_already_exists (already_exists _) = true
is_already_exists (wrapping e _) = is_already_exists e
is_already_exists (chained _ e) = is_already_exists e
is_already_exists _ = false

infixl 5 ◌>>=◌ ◌>>◌
abbrev pub ◌>>=◌ {ℓ κ} : {A : Type ℓ} {B : Type κ} → Result A → (A → Result B) → Result B
ok a >>= f = f a
err e >>= f = err e

abbrev pub ◌>>◌ {ℓ κ} : {A : Type ℓ} {B : Type κ} → Result A → Result B → Result B
m >> k = m >>= λ _. k

-- `if err != nil { return fmt.Errorf("text: %s", err) }`
abbrev pub context {ℓ} : {A : Type ℓ} → String → Result A → Result A
context t (ok a) = ok a
context t (err e) = err (because t e)
