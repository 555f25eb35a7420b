-- ===== src/Examples/Sharing.antt =====
-- A short link, and hosts.
use ledgerly_app.Base.{
  List, ℕ, ◌≤◌, ◌≡◌, refl, true, false, any, none, some, Option, Text, [], ◌++◌, codes, length,
  trim_end, arith,
}
use ledgerly_app.Sharing.Texts.{ellipsis, code_points, truncate_unicode, to_well_formed_unicode}
use ledgerly_app.Sharing.WhatsApp.{
  SharePayload, create_whatsapp_share_link, bounded_limit, max_whatsapp_url_length,
  whatsapp_base_url, fit_encoded_text, fits,
}
use ledgerly_app.Sharing.Links.{IsEncoding, share_link-bounded}
use ledgerly_app.Sharing.Longest.{IsLongestCut, fit_encoded_text-IsLongestCut}
use ledgerly_app.Sharing.PublicUrls.{Url, create_safe_public_url, has_public_hostname, is_reserved}
use ledgerly_app.Sharing.Hosts.{address, blocks, in_block, reserved-blocks}

-- Every code unit stays itself.
abbrev as_it_is : Text → Text
as_it_is text = text

as_it_is-IsEncoding : IsEncoding as_it_is
as_it_is-IsEncoding = record { encode_nil = refl; encode-append = λ s t h. refl }

abbrev payload : SharePayload
payload = record {
  title = codes "Trip";
  text = codes "Two nights in the mountains";
  url = some (codes "https://example.com/t/1");
}

share_link-bounded_example :
    length (create_whatsapp_share_link as_it_is payload none (some 40)).url
    ≤ bounded_limit (some 40) max_whatsapp_url_length (length whatsapp_base_url)
share_link-bounded_example =
    share_link-bounded as_it_is as_it_is-IsEncoding payload none (some 40) refl

fitted : fit_encoded_text as_it_is (codes "two nights") 20 6 ≡ codes "two n" ++ ellipsis
unfolding fit_encoded_text trim_end
fitted = refl

abbrev few : List Text
few = code_points (truncate_unicode (codes "abcd") 9)

-- At most three units fit, with the mark of what was left out.
too_long : fits as_it_is 3 (truncate_unicode (codes "abcd") 9) ≡ false
unfolding truncate_unicode to_well_formed_unicode
too_long = refl

fit_encoded_text-IsLongestCut_example :
    (length (as_it_is (fit_encoded_text as_it_is (codes "abcd") 9 3)) ≤ 3)
    × ((k : ℕ) × IsLongestCut as_it_is 3 few (fit_encoded_text as_it_is (codes "abcd") 9 3) k)
fit_encoded_text-IsLongestCut_example =
    fit_encoded_text-IsLongestCut as_it_is (codes "abcd") 9 3 as_it_is-IsEncoding too_long

abbrev plain_url : Text → Option Url
plain_url text = some (record {
  protocol = codes "https:";
  username = [];
  password = [];
  hostname = codes "example.com";
  serialized = text;
})

accepted :
    create_safe_public_url plain_url (codes "https://example.com/")
    ≡ some (codes "https://example.com/")
unfolding create_safe_public_url
accepted = refl

reserved-blocks_example : is_reserved 172 20 0 ≡ any (in_block (address 172 20 0 9)) blocks
reserved-blocks_example =
    reserved-blocks 172 20 0 9 (omega arith) (omega arith) (omega arith) (omega arith)

-- The loopback address in the form that a parsed URL gives it, against the form that is tested for.
mapped_loopback : has_public_hostname (codes "[::ffff:7f00:1]") ≡ true
unfolding has_public_hostname
mapped_loopback = refl

mapped_dotted : has_public_hostname (codes "[::ffff:127.0.0.1]") ≡ false
unfolding has_public_hostname
mapped_dotted = refl
