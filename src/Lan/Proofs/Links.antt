-- ===== src/Lan/Proofs/Links.antt =====
-- src/LanPeer.cpp: a link that is written into a QR code is read back as it was.
use ii_server_host.Prelude.{length, ◌≤◌, ◌≡◌, true, false, none, some, List, []}
use ii_server_host.Prelude.Text.{Text, text}
use ii_server_host.Prelude.Patterns.{has_unit}
use ii_server_host.Protocol.{Address}
use ii_server_host.Prelude.Dict.{nat_eq, text_eq, Dict}
use ii_server_host.Prelude.Int.{ℤ, pos}
use ii_server_host.Lan.Link.{PairUrl, Links, LanLink, link_items}
use ii_server_host.Prelude.Dict

-- The value of a query item
abbrev pub item : Text → List (Text × Text) → Text
item k items = elim (Dict.find k items) [ none ↦ [] | some v ↦ v ]

-- The URL that is read from what is written for the link
abbrev pub written : Links → LanLink → PairUrl
written links link = links.read_url (links.write_url (link_items links link))

-- What Qt does with this link's items: the URL that it writes of them is `society://pair` with
-- these items as its query, in their order. It gives the values back decoded: a text without a
-- percent sign stays as it is, and the encoded name becomes the name. Numbers are written without a
-- percent sign and read back.
pub record ReadsBack (links : Links) (link : LanLink) : Type 0 where
  pub decoded : Text → Text
  pub plain : (s : Text) → has_unit b'%' s ≡ false → decoded s ≡ s
  pub name : decoded (links.percent_encode link.name) ≡ link.name
  pub port_plain : has_unit b'%' (links.number (pos link.port)) ≡ false
  pub port_back : links.to_ushort (links.number (pos link.port)) ≡ some link.port
  pub time_plain : (t : ℤ) → link.expires_at ≡ some t → has_unit b'%' (links.number t) ≡ false
  pub time_back : (t : ℤ) → link.expires_at ≡ some t → links.to_long_long (links.number t) ≡ some t
  pub short : length (links.write_url (link_items links link)) ≤ 2048
  pub valid : (written links link).url.valid ≡ true
  pub scheme : (written links link).url.scheme ≡ text "society"
  pub host : (written links link).url.host ≡ text "pair"
  pub path : (written links link).path ≡ []
  pub user_info : (written links link).url.user_info ≡ []
  pub port : (written links link).url.port ≡ none
  pub fragment : (written links link).url.has_fragment ≡ false
  pub keys : (written links link).keys ≡ Dict.keys (link_items links link)
  pub version : (written links link).version ≡ item (text "v") (link_items links link)
  pub value : (k : Text) → (written links link).value k ≡ decoded (item k (link_items links link))

-- The text of an IPv4 address has neither a comma nor a percent sign.
abbrev pub IsDotted : Links → Type 0
IsDotted links =
    (s : Text) (a : Address)
    → links.parse_address s ≡ some a
    → a.ipv4 ≡ true
    → (has_unit b',' a.string ≡ false) × (has_unit b'%' a.string ≡ false)
