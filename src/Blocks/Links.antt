-- ===== src/Blocks/Links.antt =====
-- Source links and locations of a block (src/grpc/mod.rs: `validate_source_links`,
-- `validate_source_location`). A string constant is named after its text.
use llm.Base.{
  ℕ, Bool, true, false, ◌&&◌, ◌||◌, not, Option, none, some, List, [], ◌∷◌, ltb, if◌then◌else◌,
  length, is_empty, starts_with, contains, to_ascii_lowercase,
}
use llm.Query.Intent.Sentences.{trim}

pub data SourceLinkType : Type 0 where
  unspecified download view : SourceLinkType

-- `pb::SourceLink`; `view` stands for all link types but those that the code names.
pub record SourceLink : Type 0 where
  pub link_type : SourceLinkType
  pub url : List ℕ
  pub label : List ℕ
  pub expires_at : List ℕ

pub record SourceLocation : Type 0 where
  pub page_start : ℕ
  pub page_end : ℕ
  pub char_start : ℕ
  pub char_end : ℕ

pub data LinkError : Type 0 where
  link_type_invalid url_required unsafe_scheme unsupported_scheme : LinkError
  link_too_long label_too_long expires_at_required : LinkError

abbrev javascript_text : List ℕ
javascript_text = 106 ∷ 97 ∷ 118 ∷ 97 ∷ 115 ∷ 99 ∷ 114 ∷ 105 ∷ 112 ∷ 116 ∷ 58 ∷ []

abbrev file_text : List ℕ
file_text = 102 ∷ 105 ∷ 108 ∷ 101 ∷ 58 ∷ []

abbrev data_text : List ℕ
data_text = 100 ∷ 97 ∷ 116 ∷ 97 ∷ 58 ∷ []

abbrev http_text : List ℕ
http_text = 104 ∷ 116 ∷ 116 ∷ 112 ∷ 58 ∷ 47 ∷ 47 ∷ []

abbrev https_text : List ℕ
https_text = 104 ∷ 116 ∷ 116 ∷ 112 ∷ 115 ∷ 58 ∷ 47 ∷ 47 ∷ []

abbrev s3_text : List ℕ
s3_text = 115 ∷ 51 ∷ 58 ∷ 47 ∷ 47 ∷ []

abbrev minio_text : List ℕ
minio_text = 109 ∷ 105 ∷ 110 ∷ 105 ∷ 111 ∷ 58 ∷ 47 ∷ 47 ∷ []

abbrev internal_text : List ℕ
internal_text = 105 ∷ 110 ∷ 116 ∷ 101 ∷ 114 ∷ 110 ∷ 97 ∷ 108 ∷ 58 ∷ 47 ∷ 47 ∷ []

abbrev token_text : List ℕ
token_text = 116 ∷ 111 ∷ 107 ∷ 101 ∷ 110 ∷ 61 ∷ []

abbrev signature_text : List ℕ
signature_text = 115 ∷ 105 ∷ 103 ∷ 110 ∷ 97 ∷ 116 ∷ 117 ∷ 114 ∷ 101 ∷ 61 ∷ []

abbrev amz_signature_text : List ℕ
amz_signature_text =
    120 ∷ 45 ∷ 97 ∷ 109 ∷ 122 ∷ 45 ∷ 115 ∷ 105 ∷ 103 ∷ 110 ∷ 97 ∷ 116 ∷ 117 ∷ 114 ∷ 101 ∷ []

unfoldable pub unsafe_scheme_of : List ℕ → Bool
unsafe_scheme_of lower =
    starts_with javascript_text lower || starts_with file_text lower || starts_with data_text lower

unfoldable pub allowed_scheme : List ℕ → Bool
allowed_scheme lower =
    starts_with http_text lower
    || starts_with https_text lower
    || starts_with s3_text lower
    || starts_with minio_text lower
    || starts_with internal_text lower

unfoldable pub is_signed : List ℕ → Bool
is_signed lower =
    contains token_text lower || contains signature_text lower || contains amz_signature_text lower

abbrev is_unspecified : SourceLinkType → Bool
is_unspecified SourceLinkType.unspecified = true
is_unspecified _ = false

abbrev is_download : SourceLinkType → Bool
is_download SourceLinkType.download = true
is_download _ = false

-- The first error of one link.
unfoldable pub link_error : SourceLink → Option LinkError
unfolding unsafe_scheme_of allowed_scheme is_signed
link_error link =
    let url = trim link.url in
    let lower = to_ascii_lowercase url in
    if is_unspecified link.link_type
    then some link_type_invalid
    else if is_empty url
    then some url_required
    else if unsafe_scheme_of lower
    then some unsafe_scheme
    else if not (allowed_scheme lower)
    then some unsupported_scheme
    else if ltb 4096 (length url)
    then some link_too_long
    else if ltb 512 (length link.label)
    then some label_too_long
    else if is_download link.link_type && is_signed lower && is_empty (trim link.expires_at)
    then some expires_at_required
    else none

unfoldable pub validate_source_links : List SourceLink → Option LinkError
unfolding link_error
validate_source_links [] = none
validate_source_links (l ∷ ls) =
    let rest = validate_source_links ls in elim (link_error l) [ none ↦ rest | some e ↦ some e ]

-- Is the location well formed?
unfoldable pub validate_source_location : Option SourceLocation → Bool
validate_source_location none = true
validate_source_location (some l) =
    not (ltb 0 l.page_end && ltb 0 l.page_start && ltb l.page_end l.page_start)
    && not (ltb 0 l.char_end && ltb 0 l.char_start && ltb l.char_end l.char_start)
