-- ===== src/Harvest/Urls/Decode.antt =====
-- What the decoding of entities undoes.
use sjmb_slack.Prelude.{ℕ, ◌≡◌, refl, [], ◌∷◌, ◌++◌, ◌==◌, arith, if◌then◌else◌}
use sjmb_slack.Prelude.Text.{Text, codes}
use sjmb_slack.Harvest.Urls.{replace_from, replace, decode}

-- The escapes of a character that are still there: the three of Slack, and what is left when
-- one after another is undone.
pub data Stage : Type 0 where
  amp_lt_gt amp_gt amp : Stage

abbrev pub escape_char : Stage → ℕ → Text
escape_char stage c =
    if c == b'&'
    then codes "&amp;"
    else if c == b'<'
    then (elim stage [ Stage.amp_lt_gt ↦ codes "&lt;" | _ ↦ c ∷ [] ])
    else if c == b'>'
    then (elim stage [ Stage.amp ↦ c ∷ [] | _ ↦ codes "&gt;" ])
    else c ∷ []

abbrev pub escaped : Stage → Text → Text
escaped stage [] = []
escaped stage (c ∷ cs) = escape_char stage c ++ escaped stage cs

-- How Slack escapes text: every ampersand and both angle brackets.
abbrev pub escape : Text → Text
escape t = escaped amp_lt_gt t

undo_lt : (t : Text) → replace (codes "&lt;") (codes "<") (escaped amp_lt_gt t) ≡ escaped amp_gt t
unfolding replace_from
undo_lt [] = refl
undo_lt (c ∷ cs) = ground (arith, undo_lt cs)

undo_gt : (t : Text) → replace (codes "&gt;") (codes ">") (escaped amp_gt t) ≡ escaped amp t
unfolding replace_from
undo_gt [] = refl
undo_gt (c ∷ cs) = ground (arith, undo_gt cs)

undo_amp : (t : Text) → replace (codes "&amp;") (codes "&") (escaped amp t) ≡ t
unfolding replace_from
undo_amp [] = refl
undo_amp (c ∷ cs) = ground (arith, undo_amp cs)

-- Decoding gives back any text from its escaped form, texts that themselves look like
-- escapes included: each escape is undone once.
pub decode-escape : (t : Text) → decode (escape t) ≡ t
unfolding decode
decode-escape t = rw (undo_lt t, undo_gt t) (undo_amp t)
