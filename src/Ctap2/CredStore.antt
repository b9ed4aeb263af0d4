-- ===== src/Ctap2/CredStore.antt =====
-- ctap2/credstore.go: resident credentials in a file, replaced by a rename. JSON is a parameter: how a
-- list of credentials is written, and what a text is read as.
pub mod Laws
pub mod Files
use linux_id.Common.{
  ℕ, Bool, true, false, Option, none, some, List, [], ◌∷◌, ◌++◌, Bytes, Result, ok, err,
  bytes_equal, if◌then◌else◌,
}

pub record StoredCredential : Type 0 where
  pub cred_id : Bytes
  pub rp_id_hash : Bytes
  pub rp_id : Bytes
  pub rp_name : Bytes
  pub user_id : Bytes
  pub user_name : Bytes
  pub display_name : Bytes

-- The two files, `none` where one is missing, and which calls of the system fail; a write that fails
-- leaves what it got done in the temporary file.
pub record Disk : Type 0 where
  pub file : Option Bytes
  pub tmp : Option Bytes
  pub read_denied : Bool
  pub mkdir_denied : Bool
  pub write_denied : Option (Option Bytes)
  pub rename_denied : Bool

pub data StoreError : Type 0 where
  read_error decode_error mkdir_error encode_error write_error rename_error : StoreError

abbrev pub keep_head :
    StoredCredential → Option (List StoredCredential) → Option (List StoredCredential)
keep_head x none = none
keep_head x (some ys) = some (x ∷ ys)

-- `creds[i] = c` at the first entry with the same id.
unfoldable pub replace_first :
    StoredCredential → List StoredCredential → Option (List StoredCredential)
replace_first c [] = none
replace_first c (x ∷ xs) =
    if bytes_equal x.cred_id c.cred_id then some (c ∷ xs) else keep_head x (replace_first c xs)

-- The entries of one relying party, in the order of the file.
unfoldable pub matching : Bytes → List StoredCredential → List StoredCredential
matching h [] = []
matching h (c ∷ cs) = if bytes_equal c.rp_id_hash h then c ∷ matching h cs else matching h cs

abbrev pub or_append :
    StoredCredential
    → List StoredCredential
    → Option (List StoredCredential)
    → List StoredCredential
or_append c cs none = cs ++ (c ∷ [])
or_append c cs (some ys) = ys

-- The list that `Save` stores.
unfoldable pub saved_list : StoredCredential → List StoredCredential → List StoredCredential
saved_list c cs = or_append c cs (replace_first c cs)

abbrev pub found :
    Bytes → Result StoreError (List StoredCredential) → Result StoreError (List StoredCredential)
found h (err e) = err e
found h (ok cs) = ok (matching h cs)

module _ (marshal : List StoredCredential → Option Bytes)
    (unmarshal : Bytes → Option (List StoredCredential)) where
  abbrev decoded : Option (List StoredCredential) → Result StoreError (List StoredCredential)
  decoded none = err decode_error
  decoded (some cs) = ok cs

  unfoldable pub load : Disk → Result StoreError (List StoredCredential)
  load d = elim d.file [
    | none ↦ ok []
    | some b ↦ if d.read_denied then err read_error else decoded (unmarshal b)
  ]

  -- Behind the encoding: the temporary file is written, then renamed.
  unfoldable pub write_file : Disk → Bytes → Disk × Option StoreError
  write_file d b = elim d.write_denied [
    | some left ↦ (record d { tmp = left }, some write_error)
    | none ↦
        if d.rename_denied
        then (record d { tmp = some b }, some rename_error)
        else (record d { file = some b; tmp = none }, none)
  ]

  unfoldable pub write_encoded : Disk → Option Bytes → Disk × Option StoreError
  write_encoded d none = (d, some encode_error)
  write_encoded d (some b) = write_file d b

  unfoldable pub store : Disk → List StoredCredential → Disk × Option StoreError
  store d cs = if d.mkdir_denied then (d, some mkdir_error) else write_encoded d (marshal cs)

  unfoldable pub save_loaded :
      Disk → StoredCredential → Result StoreError (List StoredCredential) → Disk × Option StoreError
  save_loaded d c (err e) = (d, some e)
  save_loaded d c (ok cs) = store d (saved_list c cs)

  unfoldable pub save : Disk → StoredCredential → Disk × Option StoreError
  save d c = save_loaded d c (load d)

  unfoldable pub find_by_rp_id : Disk → Bytes → Result StoreError (List StoredCredential)
  find_by_rp_id d h = found h (load d)
