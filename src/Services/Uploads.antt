-- ===== src/Services/Uploads.antt =====
-- The methods that send a file: `postMultipart` of client.go and its callers in auth_service.go,
-- campaigns.go, contacts.go, forms.go, oauth.go and organization.go.
use warmbly_go.Common.{Option, none, some, List, [], ◌∷◌, ◌++◌, map}
use warmbly_go.Common.Text.{String, Bytes}
use warmbly_go.Services.Call.{
  Piece, lit, esc, Answer, single, in_key, Value, text, texts, omit_empty,
}

-- `content` is what the reader yields; none is a nil reader.
pub record FileUpload : Type 0 where
  pub filename : Bytes
  pub content : Option Bytes
  pub content_type : Bytes

-- A part of the form, the fields in any order; an empty content type is not sent.
pub data FormPart : Type 0 where
  form_field : String → Bytes → FormPart
  form_file : String → Bytes → Bytes → Bytes → FormPart

pub data Upload : Type 0 where
  needs_file needs_filename : Upload
  upload : List Piece → List FormPart → Answer → Upload

abbrev pub field_part : String × Bytes → FormPart
field_part (k, v) = form_field k v

abbrev pub with_filename :
    List Piece → String → Bytes → Bytes → Bytes → List (String × Bytes) → Answer → Upload
with_filename path field [] content content_type fields answer = needs_filename
with_filename path field (b ∷ bs) content content_type fields answer =
    upload path (map field_part fields ++ form_file field (b ∷ bs) content_type content ∷ []) answer

abbrev pub with_content :
    List Piece → String → FileUpload → Option Bytes → List (String × Bytes) → Answer → Upload
with_content path field file none fields answer = needs_file
with_content path field file (some content) fields answer =
    with_filename path field file.filename content file.content_type fields answer

unfoldable pub post_multipart :
    List Piece → String → Option FileUpload → List (String × Bytes) → Answer → Upload
post_multipart path field none fields answer = needs_file
post_multipart path field (some file) fields answer =
    with_content path field file file.content fields answer

abbrev pub unless_blank : String → Bytes → List (String × Bytes)
unless_blank k [] = []
unless_blank k (b ∷ bs) = (k, b ∷ bs) ∷ []

abbrev pub upload_profile_avatar : Option FileUpload → Upload
upload_profile_avatar file =
    post_multipart (lit "auth/me/avatar" ∷ []) "file" file [] (in_key "avatar_url")

abbrev pub upload_attachment : Bytes → Option FileUpload → Bytes → Upload
upload_attachment id file step_id =
    post_multipart (lit "campaigns/" ∷ esc id ∷ lit "/attachments" ∷ []) "file" file
      (unless_blank "step_id" step_id) single

abbrev pub import_preview : Option FileUpload → Upload
import_preview file = post_multipart (lit "contacts/import/preview" ∷ []) "file" file [] single

-- `options` is the JSON of the parameters.
abbrev pub import_commit : Option FileUpload → Bytes → Upload
import_commit file options =
    post_multipart (lit "contacts/import/commit" ∷ []) "file" file (("options", options) ∷ [])
      single

abbrev pub upload_asset : Bytes → Bytes → Option FileUpload → Upload
upload_asset id kind file =
    post_multipart (lit "forms/" ∷ esc id ∷ lit "/assets/" ∷ esc kind ∷ []) "file" file [] single

abbrev pub upload_logo : Option FileUpload → Upload
upload_logo file =
    post_multipart (lit "oauth/application-logo" ∷ []) "logo" file [] (in_key "logo_url")

abbrev pub upload_avatar : Option FileUpload → Upload
upload_avatar file =
    post_multipart (lit "organization/avatar" ∷ []) "file" file [] (in_key "avatar_url")

abbrev pub preflight_import : Option FileUpload → Bytes → Upload
preflight_import file passphrase =
    post_multipart (lit "organization/current/import/preflight" ∷ []) "file" file
      (unless_blank "passphrase" passphrase) single

pub record OrgImportParams : Type 0 where
  pub groups : List Bytes
  pub conflict_strategy : Bytes
  pub passphrase : Bytes

-- The parameters travel only if they say something.
abbrev pub import_options :
    (List (String × Value) → Bytes) → List (String × Value) → List (String × Bytes)
import_options marshal [] = []
import_options marshal (f ∷ fs) = ("options", marshal (f ∷ fs)) ∷ []

-- `marshal` is json.Marshal on an object.
abbrev pub create_import :
    (List (String × Value) → Bytes) → Option FileUpload → Option OrgImportParams → Upload
create_import marshal file none =
    post_multipart (lit "organization/current/import" ∷ []) "file" file [] single
create_import marshal file (some p) =
    let options =
      omit_empty "groups" (texts p.groups)
      ++ omit_empty "conflict_strategy" (text p.conflict_strategy) in
    post_multipart (lit "organization/current/import" ∷ []) "file" file
      (unless_blank "passphrase" p.passphrase ++ import_options marshal options) single
