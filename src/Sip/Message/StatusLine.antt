-- ===== src/Sip/Message/StatusLine.antt =====
-- The first line of a response, `BuildResponse` and `Parse` of internal/sip/message.go.
use mathlib.Core.List.{append_assoc}
use megaco_sip_gateway.Prelude.{
  ℕ, ◌<◌, ◌^◌, ◌∙◌, Bytes, lit, same_refl, is_empty, has_prefix, false, List, [], ◌∷◌, ◌++◌, none,
  ◌≡◌, refl, ap, sym, pos,
}
use megaco_sip_gateway.Prelude.Result.{ok}
use megaco_sip_gateway.Prelude.Decimal.{itoa}
use megaco_sip_gateway.Prelude.Decimal.Laws.{atoi-itoa, itoa_there}
use megaco_sip_gateway.Prelude.Strings.{trim_space, trim_left, trim_right, is_white, fields, join}
use megaco_sip_gateway.Prelude.Strings.Laws.{AllNot, trim_right-AllNot}
use megaco_sip_gateway.Prelude.Strings.Lines.{
  is_break, AllNot-append, itoa-AllNot, solid-AllNot, fields-word, fields-last,
}
use megaco_sip_gateway.Sip.Message.{Message, parse_start, response_line, with_status}
use megaco_sip_gateway.Sip.Message.Text.{has_prefix-word, IsWord, prefix_text, version-IsWord}

unfoldable pub AllWords : List Bytes → Type 0
AllWords [] = Unit
AllWords (w ∷ ws) = IsWord w × AllWords ws

unfoldable pub status_line : ℕ → Bytes → Bytes
status_line status reason = lit "SIP/2.0" ++ b' ' ∷ (itoa status ++ b' ' ∷ reason)

append-there : (a b : Bytes) → is_empty b ≡ false → is_empty (a ++ b) ≡ false
append-there [] b h = h
append-there (x ∷ a) b h = refl

trim_right-word : (a w : Bytes) → IsWord w → trim_right is_white (a ++ w) ≡ a ++ w
unfolding trim_right
trim_right-word [] w word = trim_right-AllNot is_white w word.solid
trim_right-word (x ∷ a) w word = rw (trim_right-word a w word, append-there a w word.there) refl

unfoldable pub join_words : Bytes → List Bytes → Bytes
join_words w ws = join (b' ' ∷ []) (w ∷ ws)

trim_right-words :
    (a w : Bytes) (ws : List Bytes)
    → IsWord w
    → AllWords ws
    → trim_right is_white (a ++ join_words w ws) ≡ a ++ join_words w ws
unfolding AllWords join_words join
trim_right-words a w [] word all = trim_right-word a w word
trim_right-words a w (v ∷ ws) word (next, all) =
    let split = append_assoc a w (b' ' ∷ join_words v ws) ∙ refl in
    let again = append_assoc (a ++ w) (b' ' ∷ []) (join_words v ws) in
    let here = again ∙ split in
    ap (trim_right is_white) (sym here)
    ∙ (trim_right-words ((a ++ w) ++ b' ' ∷ []) v ws next all ∙ here)

fields-words :
    (w : Bytes) (ws : List Bytes) → IsWord w → AllWords ws → fields (join_words w ws) ≡ w ∷ ws
unfolding AllWords join_words join
fields-words w [] word all = fields-last w word.there word.solid
fields-words w (v ∷ ws) word (next, all) =
    fields-word w (join_words v ws) word.there word.solid
    ∙ ap (λ l. w ∷ l) (fields-words v ws next all)

words-unbroken :
    (w : Bytes) (ws : List Bytes) → IsWord w → AllWords ws → AllNot is_break (join_words w ws)
unfolding AllWords join_words join
words-unbroken w [] word all = solid-AllNot w word.solid
words-unbroken w (v ∷ ws) word (next, all) =
    AllNot-append is_break w _ (solid-AllNot w word.solid) (refl, words-unbroken v ws next all)

digits-IsWord : (n : ℕ) → IsWord (itoa n)
digits-IsWord n = record { there = itoa_there n; solid = itoa-AllNot n }

status_line-fields :
    (status : ℕ) (w : Bytes) (ws : List Bytes)
    → IsWord w
    → AllWords ws
    → fields (status_line status (join_words w ws)) ≡ lit "SIP/2.0" ∷ itoa status ∷ w ∷ ws
unfolding status_line
status_line-fields status w ws word all =
    let number = digits-IsWord status in
    fields-word (lit "SIP/2.0") _ version-IsWord.there version-IsWord.solid
    ∙ ap (λ l. lit "SIP/2.0" ∷ l)
        (fields-word (itoa status) _ number.there number.solid
          ∙ ap (λ l. itoa status ∷ l) (fields-words w ws word all))

pub status_line-unbroken :
    (status : ℕ) (w : Bytes) (ws : List Bytes)
    → IsWord w
    → AllWords ws
    → AllNot is_break (status_line status (join_words w ws))
unfolding status_line
status_line-unbroken status w ws word all =
    AllNot-append is_break (lit "SIP/2.0") _ (solid-AllNot (lit "SIP/2.0") version-IsWord.solid) (
      refl,
      AllNot-append is_break (itoa status) _ (solid-AllNot (itoa status) (itoa-AllNot status))
          (refl, words-unbroken w ws word all),
    )

pub status_line-trimmed :
    (status : ℕ) (w : Bytes) (ws : List Bytes)
    → IsWord w
    → AllWords ws
    → trim_space (status_line status (join_words w ws)) ≡ status_line status (join_words w ws)
unfolding status_line trim_space trim_left is_white lit
status_line-trimmed status w ws word all =
    let before =
      append_assoc (lit "SIP/2.0 ") (itoa status ++ b' ' ∷ []) (join_words w ws)
      ∙ ap (λ t. lit "SIP/2.0 " ++ t) (append_assoc (itoa status) (b' ' ∷ []) (join_words w ws)) in
    ap (trim_right is_white) (sym before)
    ∙ (trim_right-words (lit "SIP/2.0 " ++ (itoa status ++ b' ' ∷ [])) w ws word all ∙ before)

pub status_line_there : (status : ℕ) (reason : Bytes) → is_empty (status_line status reason) ≡ false
unfolding status_line lit
status_line_there status reason = refl

-- The message before its headers are read
unfoldable pub status_message : ℕ → Bytes → Message
status_message status reason = record {
  start_line = status_line status reason;
  method = [];
  uri = [];
  status = pos status;
  reason = reason;
  headers = [];
  body = [];
  source = none;
}

pub parse_start-status_line :
    (status : ℕ) (w : Bytes) (ws : List Bytes)
    → status < 2 ^ 63
    → IsWord w
    → AllWords ws
    → parse_start (status_line status (join_words w ws))
      ≡ ok (status_message status (join_words w ws))
unfolding parse_start response_line with_status status_message join_words status_line
parse_start-status_line status w ws lt word all =
    let prefix =
      ap (has_prefix (status_line status (join_words w ws))) prefix_text
      ∙ (has_prefix-word (lit "SIP/2.0") (lit "SIP/2.0") (itoa status ++ b' ' ∷ join_words w ws)
            version-IsWord.solid version-IsWord.solid
          ∙ same_refl (lit "SIP/2.0")) in
    rw (prefix, status_line-fields status w ws word all, atoi-itoa status lt) refl
