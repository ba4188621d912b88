-- ===== src/Limits/LogText.antt =====
-- `log_text` of src/limits.rs: untrusted text on one line, within a budget of UTF-8 bytes.
use sjmb_slack.Prelude.{
  ℕ, ◌+◌, ◌≤◌, ◌<◌, ◌≡◌, refl, Bool, true, false, not, ◌&&◌, ◌||◌, [], ◌∷◌, ◌++◌, arith, ltb,
  if◌then◌else◌, ◌==◌, all, ◌⊎◌, inl, inr, append_assoc, map, Bool-cases, ltb→lt, ltb_false→le,
  map-append,
}
use sjmb_slack.Prelude.Text.{Text, len, len_utf8, len-append, is_control, is_whitespace}

unfoldable pub clean : ℕ → ℕ
clean ch = if is_control ch || is_whitespace ch then 0x20 else ch

-- The loop over the characters; `break` ends it.
unfoldable pub log_loop : ℕ → Text → Text → Text
log_loop max_bytes [] result = result
log_loop max_bytes (c ∷ cs) result =
    let ch = clean c in
    let rest = log_loop max_bytes cs (result ++ ch ∷ []) in
    if ltb max_bytes (len result + len_utf8 ch) then result else rest

unfoldable pub log_text : Text → ℕ → Text
unfolding log_loop
log_text text max_bytes = log_loop max_bytes text []

-- A character that may stand in a log line.
abbrev pub is_plain : ℕ → Bool
is_plain c = c == 0x20 || (not (is_control c) && not (is_whitespace c))

clean-is_plain : (c : ℕ) → is_plain (clean c) ≡ true
unfolding clean
clean-is_plain c = elim (Bool-cases (is_control c || is_whitespace c)) [
  | inl h ↦ rw h
  | inr h ↦ rw h (ground arith)
]

-- The loop's result extends the accumulator by a prefix of the cleaned text that fits the budget,
-- and it stops only at the end of the text or at a character that does not fit.
abbrev pub Fits : ℕ → Text → Text → Type 0
Fits max_bytes text result =
    (kept : Text) × (rest : Text) × (text ≡ kept ++ rest)
    × (result ≡ map clean kept)
    × (len result ≤ max_bytes)
    × ((rest ≡ [])
        ⊎ ((c : ℕ) × (cs : Text) × (rest ≡ c ∷ cs) × (max_bytes < len result + len_utf8 (clean c))))

len-map-append :
    (m c : ℕ) (done : Text)
    → ltb m (len (map clean done) + len_utf8 (clean c)) ≡ false
    → len (map clean (done ++ c ∷ [])) ≤ m
len-map-append m c done h =
    rw (map-append clean done (c ∷ []), len-append (map clean done) (clean c ∷ []))
      (omega (arith, ltb_false→le _ _ h))

log_loop-Fits :
    (max_bytes : ℕ) (done text : Text)
    → len (map clean done) ≤ max_bytes
    → Fits max_bytes (done ++ text) (log_loop max_bytes text (map clean done))
unfolding log_loop
log_loop-Fits m done [] h = (done, [], refl, refl, h, inl refl)
log_loop-Fits m done (c ∷ cs) h =
    let over = ltb m (len (map clean done) + len_utf8 (clean c)) in
    elim (Bool-cases over) [
      | inl stop ↦ rw stop (done, c ∷ cs, refl, refl, h, inr (c, cs, refl, ltb→lt _ _ stop))
      | inr more ↦
          let ih = log_loop-Fits m (done ++ c ∷ []) cs (len-map-append m c done more) in
          rw more (rw (map-append clean done (c ∷ []), append_assoc done (c ∷ []) cs) at ih)
    ]

all-map-clean : (t : Text) → all is_plain (map clean t) ≡ true
all-map-clean [] = refl
all-map-clean (c ∷ cs) = rw (clean-is_plain c, all-map-clean cs)

-- What is logged is the cleaned longest prefix within the budget, counted in bytes: it holds no
-- control character and no white space but the blank, and it ends before the end of the text only
-- where the next character would pass the budget.
pub log_text-Fits :
    (text : Text) (max_bytes : ℕ)
    → Fits max_bytes text (log_text text max_bytes)
      × (all is_plain (log_text text max_bytes) ≡ true)
unfolding log_text
log_text-Fits text m =
    let (kept, rest, split, shown, fits, stop) = log_loop-Fits m [] text (omega arith) in
    ((kept, rest, split, shown, fits, stop), rw shown (all-map-clean kept))
