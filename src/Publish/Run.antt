-- ===== src/Publish/Run.antt =====
-- The calls of a publication and what answers them: GitHub may answer by all that it was asked before, so the answer
-- to a call is a function of the calls so far, the newest first.
use inverter_gateway.Prelude.{ℕ, Bool, List, ◌∷◌, Text}
use inverter_gateway.Prelude.Result.{Result, ok, err}
use inverter_gateway.Json.{Json, Fields}

pub data Call : Type 0 where
  create_ref : Text → Text → Call
  create_release : Fields → Call
  upload_asset : ℕ → Text → Call
  list_assets : ℕ → Call
  download_asset : ℕ → Call
  read_ref : Text → Call
  make_public : ℕ → Bool → Call

-- `AssetIdentity`
pub record AssetIdentity : Type 0 where
  pub size : ℕ
  pub sha256 : Text

pub record Server : Type 0 where
  pub api : List Call → Result Json
  -- the status and the JSON of an upload's response
  pub uploaded : List Call → Result (ℕ × Json)
  pub pages : List Call → Result (List Fields)
  pub bytes : List Call → Result AssetIdentity

-- A part of the program: from the calls so far to the calls after it and its result.
abbrev pub Run {ℓ} : Type ℓ → Type ℓ
Run A = List Call → List Call × Result A

-- What follows a part runs on its value; an exception ends the run.
abbrev pub after {ℓ} :
    {A : Type ℓ} {B : Type ℓ} → List Call × Result A → (A → Run B) → List Call × Result B
after (h, err message) rest = (h, err message)
after (h, ok value) rest = rest value h

abbrev pub ◌>>=◌ {ℓ} : {A : Type ℓ} {B : Type ℓ} → Run A → (A → Run B) → Run B
◌>>=◌ part rest h = after (part h) rest

abbrev pub ◌>>◌ : {B : Type 0} → Run (Unit {0}) → Run B → Run B
◌>>◌ part rest = ◌>>=◌ part (λ _. rest)

infixl 5 ◌>>=◌ ◌>>◌
-- A step that calls nothing, and the call of one function of the server.
abbrev pub local {ℓ} : {A : Type ℓ} → Result A → Run A
local r h = (h, r)

abbrev pub call {ℓ} : {A : Type ℓ} → (List Call → Result A) → Call → Run A
call answer c h = (c ∷ h, answer (c ∷ h))
