-- ===== src/Config/Modes.antt =====
-- The web configurations that src/config/config.go takes.
use teller.Common.{◌≡◌, ◌↔◌, inl, inr, arith, true, false, Bool-cases, none, is_empty}
use teller.Config.{Web, web_validate}

-- The three ways to serve: HTTP alone, HTTPS with certificates from the host, and HTTPS with one's own.
pub data Mode (c : Web) : Type 0 where
  plain :
      is_empty c.http_addr ≡ false
      → is_empty c.https_addr ≡ true
      → is_empty c.auto_tls_host ≡ true
      → is_empty c.tls_cert ≡ true
      → is_empty c.tls_key ≡ true
      → Mode c
  automatic :
      is_empty c.https_addr ≡ false
      → is_empty c.auto_tls_host ≡ false
      → is_empty c.tls_cert ≡ true
      → is_empty c.tls_key ≡ true
      → Mode c
  certified :
      is_empty c.https_addr ≡ false
      → is_empty c.auto_tls_host ≡ true
      → is_empty c.tls_cert ≡ false
      → is_empty c.tls_key ≡ false
      → Mode c

Mode-web_validate : (c : Web) → Mode c → web_validate c ≡ none
unfolding web_validate
Mode-web_validate c (plain a s t k l) = ground arith
Mode-web_validate c (automatic s t k l) = ground arith
Mode-web_validate c (certified s t k l) = ground arith

web_validate-Mode : (c : Web) → web_validate c ≡ none → Mode c
unfolding web_validate
web_validate-Mode c h = elim (Bool-cases (is_empty c.https_addr)) [
  | inl no_https ↦ plain (ground arith) no_https (ground arith) (ground arith) (ground arith)
  | inr https ↦ elim (Bool-cases (is_empty c.auto_tls_host)) [
    | inl by_hand ↦ certified https by_hand (ground arith) (ground arith)
    | inr auto ↦ automatic https auto (ground arith) (ground arith)
  ]
]

-- Web.Validate takes exactly these.
pub web_validate_iff : (c : Web) → (web_validate c ≡ none) ↔ Mode c
web_validate_iff c = (web_validate-Mode c, Mode-web_validate c)
