-- ===== src/Url.antt =====
-- What the code reads of the `url` crate and of `IpAddr`'s parser. Both are parameters of the model:
-- a record of functions that the definitions take where the source calls them.
use sjmb_slack.Prelude.{ℕ, Option}
use sjmb_slack.Prelude.Text.{Text}
use sjmb_slack.UrlFilter.Address.{IpAddr}

pub data Host : Type 0 where
  domain : Text → Host
  ipv4 ipv6 : ℕ → Host

-- The answers of a parsed URL's methods; `text` is `String::from` of it.
pub record Url : Type 0 where
  pub scheme : Text
  pub host : Option Host
  pub host_str : Option Text
  pub username : Text
  pub password : Option Text
  pub port_or_known_default : Option ℕ
  pub fragment : Option Text
  pub text : Text

pub record UrlParsers : Type 0 where
  pub parse_ip : Text → Option IpAddr
  pub parse_host : Text → Option Host
  pub parse_url : Text → Option Url
