-- ===== src/UserSession/Recovery/Pass/Progressed.antt =====
-- The watermarks after any number of passes.
use sjmb_slack.Prelude.{
  ℕ, suc, ◌≡◌, refl, sym, ap, ◌∙◌, ◌⊎◌, Bool, true, false, List, [], ◌∷◌, Option, none, some, arith,
  subst, if◌then◌else◌, Bool-cases, inl, inr,
}
use sjmb_slack.Prelude.Int.{ℤ, max_ℤ}
use sjmb_slack.Prelude.Text.{Text, text_eq}
use sjmb_slack.Prelude.Map.{Map, map_some}
use sjmb_slack.Prelude.Result.{Result, ok, err}
use sjmb_slack.Prelude.Result.{Result-cases}
use sjmb_slack.State.{Channel}
use sjmb_slack.State.Store.{contains, recovery_channels}
use sjmb_slack.State.Store.Progress.{Mark, mark_of}
use sjmb_slack.Bot.Intake.{MessageEvent}
use sjmb_slack.UserSession.Json.{Value}
use sjmb_slack.UserSession.Api.{authentication_error}
use sjmb_slack.UserSession.Process.{Session}
use sjmb_slack.UserSession.Recovery.{RecoveryError, World}
use sjmb_slack.UserSession.Recovery.Pass.{
  PassWorld, recovery_api, is_rate_limit, recover_one, recover_pass, recover,
}
use sjmb_slack.UserSession.Recovery.Pass.Marks.{complete, with_failed, Ended, recover_one-Ended}
use sjmb_slack.UserSession.Recovery.Own.{KeepsChannel}
use sjmb_slack.UserSession.Recovery.Pages.{is_failure}

-- A watermark that stays, or that rises to the bound of the pass as the recovery ends.
abbrev pub Progressed : ℤ → Option Mark → Option Mark → Type 0
Progressed through none none = Unit
Progressed through (some a) (some b) =
    ((b.covered_until ≡ a.covered_until) × (b.recovering ≡ a.recovering))
    ⊎ ((b.covered_until ≡ max_ℤ a.covered_until through) × (b.recovering ≡ false))
Progressed through _ _ = ⊥

Progressed-refl : (through : ℤ) (o : Option Mark) → Progressed through o o
Progressed-refl through none = tt
Progressed-refl through (some a) = inl (refl, refl)

Progressed-complete :
    (through : ℤ) (hit : Bool) (o : Option Mark)
    → Progressed through o (if hit then map_some (complete through) o else o)
Progressed-complete through true none = tt
Progressed-complete through true (some a) = inr (refl, refl)
Progressed-complete through false o = Progressed-refl through o

marks_trans :
    (through : ℤ) (a b c : Mark)
    → Progressed through (some a) (some b)
    → Progressed through (some b) (some c)
    → Progressed through (some a) (some c)
marks_trans through a b c (inl h) (inl g) = inl (g.0 ∙ h.0, g.1 ∙ h.1)
marks_trans through a b c (inl h) (inr g) = inr (g.0 ∙ ap (λ x. max_ℤ x through) h.0, g.1)
marks_trans through a b c (inr h) (inl g) = inr (g.0 ∙ h.0, g.1 ∙ h.1)
marks_trans through a b c (inr h) (inr g) =
    inr (g.0 ∙ ap (λ x. max_ℤ x through) h.0 ∙ ground arith, g.1)

Progressed-trans :
    (through : ℤ) (a b c : Option Mark)
    → Progressed through a b
    → Progressed through b c
    → Progressed through a c
Progressed-trans through none none none h g = tt
Progressed-trans through (some a) (some b) (some c) h g = marks_trans through a b c h g
Progressed-trans through none (some b) c h g = absurd h
Progressed-trans through (some a) none c h g = absurd h
Progressed-trans through none none (some c) h g = absurd g
Progressed-trans through (some a) (some b) none h g = absurd g

Progressed-failed :
    (through : ℤ) (own failure : Bool) (o : Option Mark)
    → Progressed through o (if own then map_some (with_failed failure) o else o)
Progressed-failed through true failure none = tt
Progressed-failed through true failure (some a) = inl (refl, refl)
Progressed-failed through false failure o = Progressed-refl through o

module _ (in_range : ℕ → Bool) (decode : Value → Option MessageEvent) (workspace : ℕ)
    (dry_run : Bool) (max_pages : ℕ) (window through : ℤ) (keeps : KeepsChannel decode) where
  Progressed-ended :
      (w : World) (k : Text) (c : Channel) (s : Session)
      (out : Result RecoveryError (Unit {0}) × Session)
      → Ended in_range decode workspace dry_run max_pages window through w k c s out
      → (id : Text) → Progressed through (mark_of s.store id) (mark_of out.1.store id)
  Progressed-ended w k c s (ok u, after) h id =
      subst (Progressed through (mark_of s.store id)) (sym (h.1 id))
        (Progressed-complete through (text_eq k id) (mark_of s.store id))
  Progressed-ended w k c s (err e, after) h id =
      subst (Progressed through (mark_of s.store id)) (sym (h id))
        (Progressed-failed through (text_eq k id) (is_failure (err e)) (mark_of s.store id))

  pass-Progressed :
      (p : PassWorld) (n : ℕ) (cs : Map Channel) (s : Session) (id : Text)
      → Progressed through (mark_of s.store id) (
          mark_of
            (recover_pass in_range decode workspace dry_run max_pages window through p n cs
              s).1.store
            id)
  unfolding recover_pass
  pass-Progressed p n [] s id = Progressed-refl through (mark_of s.store id)
  pass-Progressed p n ((k, c) ∷ rest) s id =
      let one =
        recover_one in_range decode workspace dry_run max_pages window through (p.worlds n) k c s in
      let first =
        Progressed-ended (p.worlds n) k c s one
          (recover_one-Ended in_range decode workspace dry_run max_pages window through (p.worlds n)
            keeps k c s)
          id in
      let after =
        Progressed-trans through (mark_of s.store id) (mark_of one.1.store id) _ first
          (pass-Progressed p (suc n) rest one.1 id) in
      elim (Bool-cases (contains (p.members n) k)) [
        | inr left ↦ rw (left, recover_pass) (pass-Progressed p (suc n) rest s id)
        | inl member ↦ elim (Result-cases one.0) [
          | inl (u, e) ↦ elim (Bool-cases (p.saved n)) [
            | inl saved ↦ rw (member, e, saved, recover_pass) after
            | inr lost ↦ rw (member, e, lost, recover_pass) first
          ]
          | inr (x, e) ↦ elim (Bool-cases (authentication_error (recovery_api x))) [
            | inl out ↦ rw (member, e, out, recover_pass) first
            | inr fine ↦ elim (Bool-cases (is_rate_limit (recovery_api x))) [
              | inl limited ↦ rw (member, e, fine, limited, recover_pass) first
              | inr other ↦ rw (member, e, fine, other, recover_pass) after
            ]
          ]
        ]
      ]

  -- Where the codec of messages takes the channel from the event, however many passes there are, and whatever Slack, the worker and the disk do: a channel that is
  -- there keeps its watermark and recovers as before, or its recovery is over and its watermark is the
  -- greater of its own and the bound of the recovery; no channel comes or goes.
  pub recover-Progressed :
      (ps : List PassWorld) (s : Session) (id : Text)
      → Progressed through (mark_of s.store id) (
          mark_of
            (recover in_range decode workspace dry_run max_pages window through ps s).1.store
            id)
  unfolding recover
  recover-Progressed [] s id = Progressed-refl through (mark_of s.store id)
  recover-Progressed (p ∷ ps) s id =
      let one =
        recover_pass in_range decode workspace dry_run max_pages window through p 0
          (recovery_channels s.store) s in
      let first = pass-Progressed p 0 (recovery_channels s.store) s id in
      elim (Result-cases one.0) [
        | inl (u, e) ↦
            rw (e, recover)
              (Progressed-trans through (mark_of s.store id) (mark_of one.1.store id) _ first
                (recover-Progressed ps one.1 id))
        | inr (x, e) ↦ rw (e, recover) first
      ]
