-- ===== src/Profiles/Avatar.antt =====
-- `uploadAvatar` of src/profiles/profiles.service.ts. The files of uploads/avatars are part of the
-- state; the random name of a call is an argument of it.
pub mod Outcomes
mod Tests
use Prim.Native.Char.{Char, code}
use Prim.Native.String
use stellar_tip_api.Common.{
  ℕ, Bool, true, false, not, ◌||◌, String, ◌==◌, ◌≡◌, Option, none, some, List, [], ◌∷◌,
  if◌then◌else◌, eqb, leb, is_empty, truthy, or_text,
}
use stellar_tip_api.Http.{
  Result, ok, throws, Action, pure, lift, bad_request, not_found, failure, require, require_some,
  ◌>>=◌, ◌>>◌,
}
use stellar_tip_api.Entities.{User}
use stellar_tip_api.Database.{Orm, Database, find_user}
use stellar_tip_api.Profiles.{save_read_user}

-- The file of a request.
pub record Upload : Type 0 where
  pub mimetype : String
  pub size : ℕ
  pub originalname : String
  pub buffer : List ℕ

-- A file of the folder.
pub record File : Type 0 where
  pub name : String
  pub content : List ℕ

pub record Server : Type 0 where
  pub db : Database
  pub files : List File

-- The files but those of a name.
pub without_file : String → List File → List File
without_file name [] = []
without_file name (f ∷ fs) =
    let rest = without_file name fs in if f.name == name then rest else f ∷ rest

-- Node's `path.basename`, and in the folder `fs.unlinkSync` and `fs.writeFileSync`, which may refuse
pub record Disk : Type 0 where
  pub basename : String → String
  pub unlink : String → List File → Option (List File)
  pub unlink_some :
      (name : String) (files files' : List File)
      → unlink name files ≡ some files'
      → files' ≡ without_file name files
  pub write : File → List File → Option (List File)
  pub write_some :
      (file : File) (files files' : List File)
      → write file files ≡ some files'
      → files' ≡ file ∷ files

abbrev pub is_allowed : String → Bool
is_allowed mimetype =
    mimetype == "image/jpeg" || mimetype == "image/png" || mimetype == "image/webp"

abbrev pub max_size : ℕ
max_size = 5_242_880

-- what `s.split('.').pop()` is, with what was read since the last dot
pub after_dot : String → String → String
after_dot piece String.[] = piece
after_dot piece (String.◌∷◌ c s) =
    let dot = after_dot "" s in
    let on = after_dot (String.◌++◌ piece (String.◌∷◌ c "")) s in
    if eqb (code c) 46 then dot else on

unfoldable pub extension : String → String
unfolding after_dot
extension originalname = or_text (some (after_dot "" originalname)) "png"

abbrev pub file_name : String → String → String
file_name uuid originalname = String.◌++◌ uuid (String.◌++◌ "." (extension originalname))

abbrev pub url_of : String → String
url_of name = String.◌++◌ "/uploads/avatars/" name

abbrev pub with_avatar : String → User → User
with_avatar url user = record user { columns = record (user.columns) { avatar_url = some url } }

module _ (orm : Orm) (disk : Disk) where
  -- an action on the tables alone
  abbrev pub on_db : {A : Type 0} → Action Database A → Action Server A
  on_db m s = let (r, db) = m s.db in (r, record s { db = db })

  -- an error of `fs.unlinkSync` is ignored, and the file stays
  abbrev pub unlink_old : String → List File → List File
  unlink_old name files = elim (disk.unlink name files) [ none ↦ files | some files' ↦ files' ]

  abbrev pub delete_old : Option String → Action Server (Unit {0})
  delete_old url s = (
    ok tt,
    record s {
      files = if truthy url then unlink_old (disk.basename (or_text url "")) s.files else s.files;
    },
  )

  abbrev pub write_file : File → Action Server (Unit {0})
  write_file file s = elim (disk.write file s.files) [
    | none ↦ (throws failure, s)
    | some files ↦ (ok tt, record s { files = files })
  ]

  unfoldable pub upload_avatar : String → String → Upload → Action Server String
  upload_avatar uuid user_id file = do
    require (is_allowed file.mimetype) (
        bad_request (
          String.◌++◌ "Unsupported file type: "
            (String.◌++◌ file.mimetype ". Allowed types: JPEG, PNG, WEBP")))
    require (leb file.size max_size) (bad_request "File size exceeds 5MB limit")
    found ← on_db (find_user orm (λ u. u.id == user_id))
    user ← require_some found (not_found "User not found")
    delete_old user.columns.avatar_url
    write_file (record { name = file_name uuid file.originalname; content = file.buffer })
    saved ←
        on_db (save_read_user orm (with_avatar (url_of (file_name uuid file.originalname)) user))
    pure (url_of (file_name uuid file.originalname))
