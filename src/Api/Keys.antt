-- ===== src/Api/Keys.antt =====
-- SSH keys: internal/api/sshkey_handlers.go, and what internal/api/common.go does with keys and with
-- lists of names. `ssh.ParseAuthorizedKey` with `ssh.MarshalAuthorizedKey` is the parameter
-- `parse_key`: the canonical line without the comment, and the comment.
use pve_manage.Prelude.{
  ℕ, suc, Bool, false, not, ◌&&◌, ◌||◌, Option, none, some, List, [], ◌∷◌, ◌++◌, map, ◌==◌,
  if◌then◌else◌, leb, all, any, filter, find?, is_nil, length,
}
use pve_manage.Prelude.Int.{ℤ, pos, leb_ℤ, eqb_ℤ}
use pve_manage.Text.{Text, codes, text_eq, contains_string, trim_space, has_prefix, sort_strings}
use pve_manage.Sql.{
  Session, Except, ok, err, Exec, query, statement, on_error, pure, fail, ◌>>=◌, ◌>>◌,
}
use pve_manage.Tables.{Db, SshKey, delete_where}
use pve_manage.Api.{User, Reply, reply, Body, Api, require, parsed, logged_in, server_error}
use pve_manage.Api.Groups.{is_lower_alnum, starts_alnum, last_is_alnum, accepted, bad_request}

-- `validUsernameLike`: 3 to 32 lower-case letters, digits and inner hyphens.
unfoldable pub valid_username_like : Text → Bool
valid_username_like name =
    starts_alnum name
    && last_is_alnum name
    && leb 3 (length name)
    && leb (length name) 32
    && all (λ c. is_lower_alnum c || c == 45) name

-- `strings.ReplaceAll(value, "\r", "")`, trimmed.
abbrev pub without_returns : Text → Text
without_returns value = trim_space (filter (λ c. not (c == 13)) value)

abbrev pub key_line : Except Text (Text × Text) → Except Text Text
key_line (err e) = err e
key_line (ok (line, comment)) =
    if is_nil comment then ok (trim_space line) else ok (trim_space line ++ 32 ∷ comment)

abbrev pub is_alnum : ℕ → Bool
is_alnum c = (leb 97 c && leb c 122) || (leb 65 c && leb c 90) || (leb 48 c && leb c 57)

abbrev pub is_mark : ℕ → Bool
is_mark c = c == 45 || c == 95 || c == 46 || c == 32

abbrev pub starts_well : Text → Bool
starts_well [] = false
starts_well (c ∷ s) = not (is_mark c)

-- `validSSHKeyName`. Go counts bytes; a name with others than ASCII is refused in any case.
unfoldable pub valid_ssh_key_name : Text → Bool
valid_ssh_key_name name =
    leb 1 (length name)
    && leb (length name) 64
    && all (λ c. is_alnum c || is_mark c) name
    && starts_well name

-- `annotateSSHKeyLine`
abbrev pub key_label : Text → Text → Text
key_label label owner =
    if is_nil owner then label else if is_nil label then owner else label ++ 64 ∷ owner

unfoldable pub annotate_ssh_key_line : Text → Text → Text → Text
annotate_ssh_key_line public_key name owner =
    let line = without_returns public_key in
    let label = key_label (trim_space name) owner in
    if is_nil line then [] else if is_nil label then line else line ++ 32 ∷ label

-- The errors of `loadSSHKeysByIDs`: `sql.ErrNoRows`, and the others.
pub data KeyError : Type 0 where
  no_rows : KeyError
  failed : Text → KeyError

abbrev pub is_key : Text → ℤ → SshKey → Bool
is_key owner id k = text_eq k.owner_username owner && eqb_ℤ (pos k.id) id

abbrev pub scanned : Option SshKey → Exec KeyError (Session Db) SshKey
scanned none = fail KeyError.no_rows
scanned (some k) = pure k

-- `loadSSHKeyRow`
unfoldable pub load_ssh_key_row : Text → ℤ → Exec KeyError (Session Db) SshKey
load_ssh_key_row owner id = do
  row ← on_error KeyError.failed (query (λ db. find? (is_key owner id) db.ssh_keys))
  scanned row

-- The loop of `loadSSHKeysByIDs`, with the ids it has seen.
unfoldable pub load_keys : Text → List ℤ → List ℤ → Exec KeyError (Session Db) (List Text)
load_keys owner seen [] = pure []
load_keys owner seen (id ∷ ids) =
    let skip = load_keys owner seen ids in
    let load = load_ssh_key_row owner id >>= λ k. load_keys owner (id ∷ seen) ids >>= λ keys.
    pure (annotate_ssh_key_line k.public_key k.name k.owner_username ∷ keys) in
    if leb_ℤ id (pos 0) || any (eqb_ℤ id) seen then skip else load

-- `UNIQUE(owner_username, name)` and `UNIQUE(owner_username, public_key)`.
abbrev pub clashes : Text → Text → Text → SshKey → Bool
clashes owner name public_key k =
    text_eq k.owner_username owner && (text_eq k.name name || text_eq k.public_key public_key)

abbrev pub insert_key : Text → Text → Text → Db → Except Text (Unit {0} × Db)
insert_key owner name public_key db =
    if any (clashes owner name public_key) db.ssh_keys
    then err (codes "duplicate key value violates unique constraint")
    else ok (
      tt,
      record db {
        ssh_keys =
            db.ssh_keys
            ++ (record {
              id = db.next_ssh_key_id;
              owner_username = owner;
              name = name;
              public_key = public_key;
            })
              ∷ [];
        next_ssh_key_id = suc db.next_ssh_key_id;
      },
    )

abbrev pub delete_keys : Text → ℤ → Db → Except Text (ℕ × Db)
delete_keys owner id db = ok (
  length (filter (is_key owner id) db.ssh_keys),
  record db { ssh_keys = delete_where (is_key owner id) db.ssh_keys },
)

-- `handleDeleteSSHKey`
unfoldable pub handle_delete_ssh_key : Except Text User → Option ℤ → Api Reply
handle_delete_ssh_key session id = do
  user ← logged_in session
  key_id ← parsed id "invalid ssh key id"
  affected ← on_error server_error (statement (delete_keys user.username key_id))
  require (not (affected == 0)) 404 "ssh key not found"
  pure (reply 200 Body.done)

module _ (parse_key : Text → Except Text (Text × Text)) where
  -- `normalizeSSHKeyLine`
  unfoldable pub normalize_ssh_key_line : Text → Except Text Text
  normalize_ssh_key_line value =
      let line = without_returns value in
      if is_nil line || has_prefix line (codes "#") then ok [] else key_line (parse_key line)

  abbrev pub add_line : Text → Except Text (List Text) → Except Text (List Text)
  add_line line (ok lines) = ok (line ∷ lines)
  add_line line (err e) = err e

  -- The loop of `normalizeSSHKeyList`, with the lines it has seen.
  unfoldable pub distinct_lines : List Text → List (Except Text Text) → Except Text (List Text)
  distinct_lines seen [] = ok []
  distinct_lines seen (err e ∷ values) = err e
  distinct_lines seen (ok line ∷ values) =
      let rest = distinct_lines seen values in
      let more = add_line line (distinct_lines (line ∷ seen) values) in
      if is_nil line || contains_string seen line then rest else more

  abbrev pub sorted : Except Text (List Text) → Except Text (List Text)
  sorted (ok lines) = ok (sort_strings lines)
  sorted (err e) = err e

  -- `normalizeSSHKeyList`
  unfoldable pub normalize_ssh_key_list : List Text → Except Text (List Text)
  normalize_ssh_key_list values = sorted (distinct_lines [] (map normalize_ssh_key_line values))

  abbrev pub listed : Except Text (List Text) → Exec KeyError (Session Db) (List Text)
  listed (ok lines) = pure lines
  listed (err e) = fail (KeyError.failed e)

  -- `loadSSHKeysByIDs`
  unfoldable pub load_ssh_keys_by_ids : Text → List ℤ → Exec KeyError (Session Db) (List Text)
  load_ssh_keys_by_ids owner [] = pure []
  load_ssh_keys_by_ids owner (id ∷ ids) = do
    keys ← load_keys owner [] (id ∷ ids)
    listed (normalize_ssh_key_list keys)

  -- `handleCreateSSHKey`; the body holds the name and the public key.
  unfoldable pub handle_create_ssh_key : Except Text User → Option (Text × Text) → Api Reply
  handle_create_ssh_key session body = do
    user ← logged_in session
    req ← parsed body "invalid json"
    let name = trim_space req.0
    require (valid_ssh_key_name name) 400 "invalid ssh key name"
    public_key ← accepted (normalize_ssh_key_line req.1)
    require (not (is_nil public_key)) 400 "invalid ssh public key"
    on_error bad_request (statement (insert_key user.username name public_key))
    pure (reply 201 Body.done)
