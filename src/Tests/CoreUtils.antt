-- ===== src/Tests/CoreUtils.antt =====
-- crates/core-utils at concrete inputs.
use vpoiskaxroditeley.Prelude.{◌≡◌, refl, true, false, none, some, [], ◌∷◌, ◌++◌, arith}
use vpoiskaxroditeley.Prelude.{ℕ, Option, if◌then◌else◌}
use vpoiskaxroditeley.Prelude.Int.{pos, negsuc}
use vpoiskaxroditeley.Str.{starts_with}
use vpoiskaxroditeley.CoreUtils.Search.{find_token}
use vpoiskaxroditeley.CoreUtils.Dates.{civil_from_days}
use vpoiskaxroditeley.CoreUtils.Numbers.{int_to_compact}
use vpoiskaxroditeley.Str.{Bytes, codes, strip_prefix}
use vpoiskaxroditeley.CoreUtils.Encoding.{hex_nibble, percent_encode, percent_decode}
use vpoiskaxroditeley.CoreUtils.Encoding.Percent.{percent_decode-percent_encode}
use vpoiskaxroditeley.CoreUtils.Url.{
  Authority, split_authority, path_of, host_of, host_port, origin_parts, join_origin,
}
use vpoiskaxroditeley.CoreUtils.Url.Parts.{
  scheme_text, userinfo_text, port_text, split_authority_lossless,
}

encode_run : percent_encode (codes "a b%") ≡ codes "a%20b%25"
unfolding percent_encode
encode_run = refl

decode_run : percent_decode (codes "%4a%zz%2") ≡ codes "J%zz%2"
unfolding percent_decode hex_nibble
decode_run = refl

abbrev url : Bytes
url = codes "https://bob:pw@Host.Example:8443/a/b?x=1#top"

host_run : host_of url ≡ codes "host.example"
unfolding host_of
host_run = refl

host_port_run : host_port url ≡ codes "host.example:8443"
unfolding host_port
host_port_run = refl

path_run : path_of url ≡ codes "/a/b?x=1#top"
unfolding path_of strip_prefix
path_run = refl

origin_run : (origin_parts (codes "HTTP://[::1]:80/x")).0 ≡ codes "HTTP://[::1]"
unfolding origin_parts
origin_run = refl

join_run : join_origin url (codes "c") true ≡ codes "https://bob:pw@Host.Example:8443/c"
unfolding join_origin
join_run = refl

percent_decode-percent_encode_example :
    percent_decode (percent_encode (0 ∷ 37 ∷ 255 ∷ [])) ≡ 0 ∷ 37 ∷ 255 ∷ []
percent_decode-percent_encode_example =
    percent_decode-percent_encode (0 ∷ 37 ∷ 255 ∷ []) (omega arith)

split_authority_lossless_example :
    scheme_text (split_authority url).scheme
      ++ (userinfo_text (split_authority url).userinfo
          ++ ((split_authority url).host
              ++ (port_text (split_authority url).port ++ (split_authority url).tail)))
    ≡ url
unfolding split_authority
split_authority_lossless_example = split_authority_lossless url refl refl

abbrev local : Authority
local = record {
  scheme = codes "http";
  userinfo = none;
  host = codes "localhost";
  port = none;
  host_bracketed = false;
  tail = [];
}

digits_run : int_to_compact (negsuc 2025) ≡ some (codes "-2026")
unfolding int_to_compact
digits_run = refl

civil_run : civil_from_days (pos 20_780) ≡ (pos 2026, 11, 23)
unfolding civil_from_days
civil_run = refl

abbrev no_find : Bytes → Bytes → Option ℕ
no_find s key = if starts_with key s then some 0 else none

find_token_run : find_token no_find (codes "k=abc;") (codes "k=") b';' 8 ≡ some (codes "abc")
unfolding find_token strip_prefix starts_with
find_token_run = refl
