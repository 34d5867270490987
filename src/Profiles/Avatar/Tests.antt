-- ===== src/Profiles/Avatar/Tests.antt =====
-- An upload of a file whose name ends in .html (src/profiles/profiles.service.ts).
use stellar_tip_api.Common.{arith, ◌≡◌, refl, some, List, [], ◌∷◌}
use stellar_tip_api.Http.{ok}
use stellar_tip_api.Fixtures.{list_orm, empty_database, wallet_user}
use stellar_tip_api.Auth.Account.{validate_auth_method}
use stellar_tip_api.Profiles.{save_read_user}
use stellar_tip_api.Profiles.Avatar.{
  Upload, File, Server, Disk, without_file, upload_avatar, extension,
}
use stellar_tip_api.Profiles.Avatar.Outcomes.{Outcome, upload_outcome}

some-eq : (a b : List File) → some a ≡ some b → b ≡ a
some-eq a b h = ground arith

abbrev disk : Disk
disk = record {
  basename = λ s. s;
  unlink = λ name files. some (without_file name files);
  unlink_some = λ name files files' h. some-eq (without_file name files) files' h;
  write = λ file files. some (file ∷ files);
  write_some = λ file files files' h. some-eq (file ∷ files) files' h;
}

abbrev page : Upload
page = record {
  mimetype = "image/png";
  size = 3;
  originalname = "me.png.html";
  buffer = 60 ∷ 104 ∷ 62 ∷ [];
}

abbrev server : Server
server = record { db = record empty_database { users = wallet_user "u1" "GA" ∷ [] }; files = [] }

-- The extension is the one that the client gave.
stored_page : (upload_avatar list_orm disk "9f" "u1" page server).0 ≡ ok "/uploads/avatars/9f.html"
unfolding upload_avatar extension save_read_user validate_auth_method
stored_page = refl

upload_outcome_example :
    Outcome list_orm disk "9f" "u1" page server
      (upload_avatar list_orm disk "9f" "u1" page server).0
      (upload_avatar list_orm disk "9f" "u1" page server).1
upload_outcome_example = upload_outcome list_orm disk "9f" "u1" page server
