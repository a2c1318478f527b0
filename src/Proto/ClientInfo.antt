-- ===== src/Proto/ClientInfo.antt =====
-- `ClientInfo::new` and `ClientInfo::complete` of dersp/src/proto/data.rs. A string is the list of
-- its bytes.
use dersp.Prelude.{ℕ, Option, none, some, List, [], ◌∷◌, ◌++◌, length, ◌==◌, if◌then◌else◌}
use dersp.Exec.{Outcome, ok, err}
use dersp.Crypto.Keys.{PublicKey}
use dersp.Crypto.Secret.{SecretKey, Sealing}
use dersp.Failure.{Failure, client_info_failed}
use dersp.Proto.Data.Frames.{ClientInfo}

pub record ClientInfoPayload : Type 0 where
  pub version : ℕ
  pub meshkey : List ℕ

pub record CompleteClientInfo : Type 0 where
  pub public_key : PublicKey
  pub nonce : List ℕ
  pub payload : ClientInfoPayload

-- `{"version": 2, "meshKey": "`
abbrev pub json_head : List ℕ
json_head =
    123 ∷ 34 ∷ 118 ∷ 101 ∷ 114 ∷ 115 ∷ 105 ∷ 111 ∷ 110 ∷ 34 ∷ 58 ∷ 32 ∷ 50 ∷ 44 ∷ 32 ∷ 34 ∷ 109
    ∷ 101 ∷ 115 ∷ 104 ∷ 75 ∷ 101 ∷ 121 ∷ 34 ∷ 58 ∷ 32 ∷ 34 ∷ []

-- `"}`
abbrev pub json_tail : List ℕ
json_tail = 34 ∷ 125 ∷ []

-- The `plain_text`: the mesh key stands in it as it is.
abbrev pub plain_text : Option (List ℕ) → List ℕ
plain_text (some meshkey) = json_head ++ (meshkey ++ json_tail)
plain_text none = json_head ++ json_tail

-- What `ClientInfo::new` makes of the cipher text; the conversion of the nonce is `try_into`.
unfoldable pub client_info_from : PublicKey → List ℕ → Option (List ℕ) → Outcome Failure ClientInfo
client_info_from public_key nonce none = err client_info_failed
client_info_from public_key nonce (some cipher_text) =
    if length nonce == 24
    then ok (record { public_key = public_key; nonce = nonce; cipher_text = cipher_text })
    else err client_info_failed

-- `ClientInfo::new`, with the nonce that the random generator returns.
unfoldable pub new_client_info :
    Sealing → SecretKey → PublicKey → Option (List ℕ) → List ℕ → Outcome Failure ClientInfo
unfolding client_info_from
new_client_info box secret_key server_key meshkey nonce =
    client_info_from (box.public_of secret_key) nonce
      (box.encrypt server_key secret_key nonce (plain_text meshkey))

-- What `ClientInfo::complete` makes of the payload, if the text parses, and of the text, if it
-- decrypts.
unfoldable pub complete_with :
    ClientInfo → Option ClientInfoPayload → Outcome Failure CompleteClientInfo
complete_with info none = err client_info_failed
complete_with info (some payload) =
    ok (record { public_key = info.public_key; nonce = info.nonce; payload = payload })

unfoldable pub complete_from :
    (List ℕ → Option ClientInfoPayload)
    → ClientInfo
    → Option (List ℕ)
    → Outcome Failure CompleteClientInfo
unfolding complete_with
complete_from parse_json info none = err client_info_failed
complete_from parse_json info (some text) = complete_with info (parse_json text)

-- `ClientInfo::complete`, with `serde_json::from_slice`. The nonce is an array of 24 bytes, so its
-- conversion does not fail.
unfoldable pub complete :
    Sealing
    → (List ℕ → Option ClientInfoPayload)
    → ClientInfo
    → SecretKey
    → Outcome Failure CompleteClientInfo
unfolding complete_from
complete box parse_json info sk =
    complete_from parse_json info (box.decrypt info.public_key sk info.nonce info.cipher_text)
