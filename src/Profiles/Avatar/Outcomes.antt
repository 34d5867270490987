-- ===== src/Profiles/Avatar/Outcomes.antt =====
-- What `uploadAvatar` of src/profiles/profiles.service.ts leaves, on every branch.
use text.Mathlib.TextLemmas.{cons-append, nil-append}
use Prim.Native.Char.{code}
use Prim.Native.String
use stellar_tip_api.Common.{
  ◌≤◌, ◌<◌, Bool, true, false, ◌||◌, String, ◌==◌, eq_iff, ◌≡◌, refl, ◌∙◌, ◌⊎◌, inl, inr, none,
  some, List, ◌∷◌, if◌then◌else◌, eqb, leb, leb→le, truthy, or_text, arith, Bool-cases,
  Option-cases, is_empty,
}
use stellar_tip_api.Http.{Result, ok, throws, Exception, failure, Result-cases}
use stellar_tip_api.Entities.{User}
use stellar_tip_api.Database.{Orm, Database, Has, replace, update_user}
use stellar_tip_api.Auth.Account.{validate_auth_method}
use stellar_tip_api.Profiles.{save_read_user}
use stellar_tip_api.Profiles.Avatar.{
  Upload, File, Server, Disk, without_file, unlink_old, is_allowed, max_size, after_dot, extension,
  file_name, url_of, with_avatar, write_file, upload_avatar,
}

pub has_dot : String → Bool
has_dot String.[] = false
has_dot (String.◌∷◌ c s) = let rest = has_dot s in eqb (code c) 46 || rest

has_dot-append : (s t : String) → has_dot (String.◌++◌ s t) ≡ (has_dot s || has_dot t)
unfolding has_dot
has_dot-append String.[] t = rw (nil-append t) refl
has_dot-append (String.◌∷◌ c s) t = rw (cons-append c s t, has_dot-append s t) (ground arith)

after_dot-plain : (piece s : String) → has_dot piece ≡ false → has_dot (after_dot piece s) ≡ false
unfolding after_dot has_dot
after_dot-plain piece String.[] plain = plain
after_dot-plain piece (String.◌∷◌ c s) plain = elim (Bool-cases (eqb (code c) 46)) [
  | inl t ↦ rw t (after_dot-plain "" s refl)
  | inr f ↦ rw f (
      after_dot-plain (String.◌++◌ piece (String.◌∷◌ c "")) s
        (has_dot-append piece (String.◌∷◌ c "") ∙ ground (arith, plain, f)))
]

extension-plain : (originalname : String) → has_dot (extension originalname) ≡ false
unfolding has_dot extension
extension-plain originalname =
    let plain = after_dot-plain "" originalname refl in
    elim (Bool-cases (is_empty (after_dot "" originalname))) [
      | inl t ↦ rw t refl
      | inr f ↦ rw f plain
    ]

module _ (orm : Orm) (disk : Disk) where
  -- the files after the old avatar was to be deleted
  abbrev pub cleared : User → Server → List File
  cleared user s =
      if truthy user.columns.avatar_url
      then unlink_old orm disk (disk.basename (or_text user.columns.avatar_url "")) s.files
      else s.files

  -- The files before, without the user's old avatar; there may be none, and its deletion may fail.
  pub data IsCleared (user : User) (s : Server) : List File → Type 0 where
    no_avatar : truthy user.columns.avatar_url ≡ false → IsCleared user s s.files
    kept_avatar :
        truthy user.columns.avatar_url ≡ true
        → disk.unlink (disk.basename (or_text user.columns.avatar_url "")) s.files ≡ none
        → IsCleared user s s.files
    gone :
        truthy user.columns.avatar_url ≡ true
        → IsCleared user s
            (without_file (disk.basename (or_text user.columns.avatar_url "")) s.files)

  cleared-IsCleared : (user : User) (s : Server) → IsCleared user s (cleared user s)
  cleared-IsCleared user s = elim (Bool-cases (truthy user.columns.avatar_url)) [
    | inr f ↦ rw f (no_avatar f)
    | inl t ↦
        let name = disk.basename (or_text user.columns.avatar_url "") in
        elim (Option-cases (disk.unlink name s.files)) [
          | inl n ↦ rw (t, unlink_old, n) (kept_avatar t n)
          | inr (files, u) ↦ rw (t, unlink_old, u, disk.unlink_some name s.files files u) (gone t)
        ]
  ]

  abbrev pub new_file : String → Upload → File
  new_file uuid file = record { name = file_name uuid file.originalname; content = file.buffer }

  -- Why an upload is refused: its type, its size, or that no user has the id.
  abbrev pub IsUnfit : String → Upload → Server → Type 0
  IsUnfit user_id file s =
      (is_allowed file.mimetype ≡ false)
      ⊎ ((max_size < file.size) ⊎ ((u : User) → Has u s.db.users → (u.id == user_id) ≡ false))

  -- An upload that is taken in, of the user.
  pub record IsFit (user_id : String) (file : Upload) (s : Server) (user : User) : Type 0 where
    pub listed : Has user s.db.users
    pub owner : user.id ≡ user_id
    pub allowed : is_allowed file.mimetype ≡ true
    pub small : file.size ≤ max_size

  pub data Outcome (uuid user_id : String) (file : Upload) (s : Server)
      : Result String → Server → Type 0 where
    refused : (e : Exception) → IsUnfit user_id file s → Outcome uuid user_id file s (throws e) s
    -- the file was not written, and the user's row still names the old one
    unwritten :
        (user : User) (files : List File)
        → IsFit user_id file s user
        → IsCleared user s files
        → disk.write (new_file uuid file) files ≡ none
        → Outcome uuid user_id file s (throws failure) (record s { files = files })
    -- the user's row was not written, and still names the old file
    unsaved :
        (e : Exception) (user : User) (files : List File)
        → IsFit user_id file s user
        → IsCleared user s files
        → Outcome uuid user_id file s (throws e) (record s { files = new_file uuid file ∷ files })
    stored :
        (user : User) (files : List File)
        → IsFit user_id file s user
        → IsCleared user s files
        → has_dot (extension file.originalname) ≡ false
        → Outcome uuid user_id file s (ok (url_of (file_name uuid file.originalname))) (record {
          db = record (s.db) {
            users =
                replace (with_avatar (url_of (file_name uuid file.originalname)) user) s.db.users;
          };
          files = new_file uuid file ∷ files;
        })

  save_read_user-cases :
      (user : User) (db : Database)
      → ((e : Exception) × (save_read_user orm user db ≡ (throws e, db)))
        ⊎ (save_read_user orm user db ≡ (ok user, record db { users = replace user db.users }))
  unfolding save_read_user
  save_read_user-cases user db = elim (Result-cases (validate_auth_method user.columns)) [
    | inr (e, h) ↦ inl (e, rw h refl)
    | inl (done, h) ↦ elim (Option-cases (orm.users.update user db.users)) [
      | inl n ↦ inl (failure, rw (h, update_user, n) refl)
      | inr (rows, u) ↦
          inr (rw (h, update_user, u, orm.users.update_some user db.users rows u) refl)
    ]
  ]

  found_user :
      (uuid user_id : String) (file : Upload) (s : Server) (user : User)
      → orm.users.find_one (λ u. u.id == user_id) s.db.users ≡ some user
      → is_allowed file.mimetype ≡ true
      → leb file.size max_size ≡ true
      → Outcome uuid user_id file s
          (upload_avatar orm disk uuid user_id file s).0
          (upload_avatar orm disk uuid user_id file s).1
  unfolding upload_avatar
  found_user uuid user_id file s user found allowed small =
      let (listed, same) = orm.users.find_one_some _ s.db.users user found in
      let new = new_file uuid file in
      let url = url_of (file_name uuid file.originalname) in
      let fit : IsFit user_id file s user = record {
        listed = listed;
        owner = (eq_iff user.id user_id).0 same;
        allowed = allowed;
        small = leb→le file.size max_size small;
      } in
      let after = cleared-IsCleared user s in
      elim (Option-cases (disk.write new (cleared user s))) [
        | inl full ↦
            rw (allowed, small, found, write_file, full)
              (unwritten user (cleared user s) fit after full)
        | inr (files, written) ↦
            let added = disk.write_some new (cleared user s) files written in
            elim (save_read_user-cases (with_avatar url user) s.db) [
              | inl (e, unsaved_row) ↦
                  rw (allowed, small, found, write_file, written, unsaved_row, added)
                    (unsaved e user (cleared user s) fit after)
              | inr saved ↦
                  rw (allowed, small, found, write_file, written, saved, added)
                    (stored user (cleared user s) fit after (extension-plain file.originalname))
            ]
      ]

  -- An upload is refused and changes nothing: its type is none of the three, it is above 5 MB, or no
  -- user has the id. Or it is taken in, and the user's old file is deleted, unless there is none or
  -- the deletion fails. Then it is stored: the file is in the folder under the random name with an
  -- extension that has no dot, and the user's row names it. Or it throws, before or after the file
  -- is written, and the user's row still names the old one.
  pub upload_outcome :
      (uuid user_id : String) (file : Upload) (s : Server)
      → Outcome uuid user_id file s
          (upload_avatar orm disk uuid user_id file s).0
          (upload_avatar orm disk uuid user_id file s).1
  unfolding upload_avatar
  upload_outcome uuid user_id file s = elim (Bool-cases (is_allowed file.mimetype)) [
    | inr f ↦ rw f (refused _ (inl f))
    | inl allowed ↦ elim (Bool-cases (leb file.size max_size)) [
      | inr f ↦ rw (allowed, f) (refused _ (inr (inl (ground (arith, f)))))
      | inl small ↦ elim (Option-cases (orm.users.find_one (λ u. u.id == user_id) s.db.users)) [
        | inl absent ↦
            rw (allowed, small, absent)
              (refused _ (inr (inr (λ u m. orm.users.find_one_none _ s.db.users u absent m))))
        | inr (user, found) ↦ found_user uuid user_id file s user found allowed small
      ]
    ]
  ]
