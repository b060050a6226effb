-- ===== src/Web/RequestIp/Spoofing.antt =====
-- What a client cannot choose about its address.
use decant_fi.Common.{
  append_text, ◌≡◌, refl, inl, inr, true, false, none, some, String, str_eq, code, ◌==◌, Bool-cases,
}
use decant_fi.Web.RequestIp.{Request, trim_text, first_header, has_comma, last_part, client_ip}

-- A text, a comma, and a text.
abbrev pub with_comma : String → String → String
with_comma prefix last = append_text prefix (append_text "," last)

has_comma-with_comma : (prefix peer : String) → has_comma (with_comma prefix peer) ≡ true
unfolding has_comma
has_comma-with_comma String.[] peer = refl
has_comma-with_comma (String.◌∷◌ letter rest) peer = elim (Bool-cases (code letter == b',')) [
  | inl e ↦ rw e refl
  | inr e ↦ rw e (has_comma-with_comma rest peer)
]

last_part-with_comma :
    (prefix last : String) → has_comma last ≡ false → last_part (with_comma prefix last) ≡ last
unfolding last_part
last_part-with_comma String.[] last h = rw h refl
last_part-with_comma (String.◌∷◌ letter rest) last h =
    rw (has_comma-with_comma rest last) (last_part-with_comma rest last h)

-- Behind a trusted proxy that sets no X-Real-IP, the address is the last element of X-Forwarded-For
-- without the white space around it, if that is not empty. This is the element that the proxy has
-- appended: whatever the client has written before it does not change the address.
pub client_ip_ignores_prefix :
    (req : Request) (prefix last peer : String)
    → first_header req.x_real_ip ≡ none
    → first_header req.x_forwarded_for ≡ some (with_comma prefix last)
    → has_comma last ≡ false
    → trim_text last ≡ peer
    → str_eq peer "" ≡ false
    → client_ip req true ≡ peer
unfolding client_ip
client_ip_ignores_prefix req prefix last peer real forwarded comma trimmed given =
    rw (real, forwarded, last_part-with_comma prefix last comma, trimmed, given) refl
