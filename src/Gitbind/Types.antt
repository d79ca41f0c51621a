-- ===== src/Gitbind/Types.antt =====
-- internal/gitbind/gitbind.go: its data, and the calls of git and of the standard library.
use agentattest.Prelude.{String, Bool, Option, List}
use agentattest.Env.{Bytes}

pub record Digest : Type 0 where
  pub algorithm : String
  pub digest : String

pub record FileDigest : Type 0 where
  pub path : String
  pub sha256 : String
  pub status : String

pub record Result : Type 0 where
  pub repo_url : String
  pub branch : String
  pub base_commit : String
  pub head_commit : String
  pub patch : Digest
  pub changed_files : List FileDigest

-- A `url.URL`.
pub record Url : Type 0 where
  pub scheme : String
  pub opaque : String
  pub user : Option String
  pub host : String
  pub path : String
  pub raw_path : String
  pub omit_host : Bool
  pub force_query : Bool
  pub raw_query : String
  pub fragment : String
  pub raw_fragment : String

-- What reading a changed file gives: os.ErrNotExist, another error, or its bytes.
pub data Content : Type 0 where
  missing unreadable : Content
  content : Bytes → Content

pub record Git : Type 0 where
  -- the output of git with these arguments in a directory
  pub run : String → List String → Option Bytes
  pub read : String → Content
  -- the text of bytes, strings.TrimSpace, net/url, the hexadecimal SHA-256
  pub string_of : Bytes → String
  pub trim_space : String → String
  pub parse_url : String → Option Url
  pub url_text : Url → String
  pub sha256_hex : Bytes → String
