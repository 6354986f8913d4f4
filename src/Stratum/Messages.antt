-- ===== src/Stratum/Messages.antt =====
-- What `processResponse` of libpoolprotocols/stratum/EthStratumClient.cpp first reads of a message, and
-- `processError`.
use quai_gpu_miner_archive.Stratum.{Json, Text}
use quai_gpu_miner_archive.Stratum.Texts.{codes, same_text}
use quai_gpu_miner_archive.Prelude.{
  ℕ, Bool, true, false, not, ◌&&◌, ◌||◌, Option, none, some, List, [], ◌∷◌, ◌++◌, ◌==◌,
  if◌then◌else◌, ◌>>=◌, get_elem?,
}

-- `result` and `params` are null when they are missing.
pub record Message (Value : Type 0) : Type 0 where
  pub field : Text → Option Value
  pub rpc_ver : ℕ
  pub id : ℕ
  pub is_success : Bool
  pub err_reason : Text
  pub method : Text
  pub is_notification : Bool
  pub result : Value

abbrev pub is_blank : Text → Bool
is_blank [] = true
is_blank (a ∷ rest) = false

module _ {Value : Type 0} (json : Json Value) where
  -- `get(key, "").asString()` of members.
  abbrev pub text_of : Option Value → Option Text
  text_of none = some []
  text_of (some value) = json.as_string value

  -- `get(ArrayIndex(i), "").asString()`.
  abbrev pub text_at : Value → ℕ → Option Text
  text_at value i = text_of (get_elem? (json.elements value) i)

  unfoldable pub join_elements : List Value → Option Text
  join_elements [] = some []
  join_elements (v ∷ values) = do
    text ← json.as_string v
    rest ← join_elements values
    some (text ++ 32 ∷ rest)

  unfoldable pub join_members : List (Text × Value) → Option Text
  join_members [] = some []
  join_members ((name, v) ∷ rest) = do
    text ← json.as_string v
    more ← join_members rest
    some (name ++ 58 ∷ text ++ 32 ∷ more)

  -- `processError`, of the member `error`.
  unfoldable pub process_error : Option Value → Option Text
  unfolding join_elements join_members
  process_error none = some (codes "Unknown error")
  process_error (some error) =
      if json.is_null error
      then some (codes "Unknown error")
      else if json.converts_to_string error
      then json.as_string error
      else if json.converts_to_array error
      then join_elements (json.elements error)
      else if json.converts_to_object error
      then join_members (json.members error)
      else some []

  abbrev pub or_null : Option Value → Value
  or_null none = json.null
  or_null (some value) = value

  abbrev pub is_success_of : Option Value → Bool
  is_success_of none = true
  is_success_of (some error) = json.is_empty error

  abbrev pub id_of : Option Value → Option ℕ
  id_of none = some 0
  id_of (some value) = json.as_uint value

  -- Whether the client's mode is Eth-Proxy is an argument. `none` is an exception.
  unfoldable pub read_message : Bool → Value → Option (Message Value)
  unfolding process_error
  read_message eth_proxy value = do
    field ← json.object value
    id ← id_of (field (codes "id"))
    let error = field (codes "error")
    err_reason ← (if is_success_of error then some [] else process_error error)
    method ← text_of (field (codes "method"))
    let is_notification = not (is_blank method) || (id == 0)
    let result = or_null (field (codes "result"))
    some (record {
      field = field;
      rpc_ver = elim (field (codes "jsonrpc")) [ none ↦ 1 | some version ↦ 2 ];
      id = id;
      is_success = is_success_of error;
      err_reason = err_reason;
      method =
          if is_notification && is_blank method && eth_proxy && json.is_array result
          then codes "mining.notify"
          else method;
      is_notification = is_notification;
      result = result;
    })

  abbrev pub is_version_2 : Option Value → Bool
  is_version_2 none = true
  is_version_2 (some version) =
      json.is_string version
      && elim (json.as_string version) [ none ↦ false | some text ↦ same_text text (codes "2.0") ]

  abbrev pub is_missing : Option Value → Bool
  is_missing none = true
  is_missing (some value) = json.is_empty value

  -- The sanity checks: whether the message is refused.
  abbrev pub is_invalid : Message Value → Bool
  is_invalid m =
      not (is_version_2 (m.field (codes "jsonrpc")))
      || (m.is_notification
          && is_missing (m.field (codes "params"))
          && is_missing (m.field (codes "result")))
