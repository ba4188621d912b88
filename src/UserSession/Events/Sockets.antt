-- ===== src/UserSession/Events/Sockets.antt =====
-- Where the session's token may be sent.
use sjmb_slack.Prelude.{
  ℕ, ◌-◌, ◌≤◌, ◌≡◌, refl, sym, ap, ◌∙◌, true, [], ◌∷◌, ◌++◌, Option, none, some, length, take, drop,
  take-append-drop, arith, Option-cases, inl, inr,
}
use sjmb_slack.Prelude.Text.{Text, codes, text_eq_iff, is_empty, len}
use sjmb_slack.Prelude.Result.{ok}
use sjmb_slack.Url.{Url}
use sjmb_slack.UserSession.Events.{
  ends_with, trusted_host, absent, is_port, trusted, validate_socket_url,
}

-- A websocket of Slack over TLS on the standard port, with no credentials in its URL.
pub record IsTrusted (url : Url) : Type 0 where
  pub scheme : url.scheme ≡ codes "wss"
  pub host : Text
  pub subdomain : url.host_str ≡ some (host ++ codes ".slack.com")
  pub no_user : url.username ≡ []
  pub no_password : url.password ≡ none
  pub port : url.port_or_known_default ≡ some 443
  pub no_fragment : url.fragment ≡ none

ends_with-split :
    (suffix t : Text) → ends_with suffix t ≡ true → t ≡ take (length t - length suffix) t ++ suffix
ends_with-split suffix t h =
    let same = (text_eq_iff (drop (length t - length suffix) t) suffix).0 (ground arith) in
    sym (take-append-drop (length t - length suffix) t)
    ∙ ap (λ d. take (length t - length suffix) t ++ d) same

trusted_host-split :
    (o : Option Text)
    → trusted_host o ≡ true
    → (host : Text) × (o ≡ some (host ++ codes ".slack.com"))
trusted_host-split none h = absurd (ground arith)
trusted_host-split (some t) h =
    (take (length t - 10) t, ap some (ends_with-split (codes ".slack.com") t h))

absent-none : (o : Option Text) → absent o ≡ true → o ≡ none
absent-none none h = refl
absent-none (some t) h = absurd (ground arith)

is_empty_nil : (t : Text) → is_empty t ≡ true → t ≡ []
is_empty_nil [] h = refl
is_empty_nil (c ∷ cs) h = absurd (ground arith)

is_port-some : (n : ℕ) (o : Option ℕ) → is_port n o ≡ true → o ≡ some n
is_port-some n none h = absurd (ground arith)
is_port-some n (some p) h = ground arith

-- The session connects to a gateway that Slack names only if its URL is one of a subdomain of
-- slack.com over TLS on port 443, without user, password and fragment, in at most 16 KiB.
pub validate_socket_url-IsTrusted :
    (parse : Text → Option Url) (value : Text) (url : Url)
    → validate_socket_url parse value ≡ ok url
    → (parse value ≡ some url) × (len value ≤ 16384) × IsTrusted url
unfolding validate_socket_url trusted
validate_socket_url-IsTrusted parse value url h = elim (Option-cases (parse value)) [
  | inl bad ↦ absurd (ground arith)
  | inr (u, parsed) ↦
      let e : u ≡ url = ground arith in
      let (host, subdomain) = trusted_host-split url.host_str (ground arith) in
      (
        ground arith,
        ground arith,
        record {
          scheme = (text_eq_iff url.scheme (codes "wss")).0 (ground arith);
          host = host;
          subdomain = subdomain;
          no_user = is_empty_nil url.username (ground arith);
          no_password = absent-none url.password (ground arith);
          port = is_port-some 443 url.port_or_known_default (ground arith);
          no_fragment = absent-none url.fragment (ground arith);
        },
      )
]
