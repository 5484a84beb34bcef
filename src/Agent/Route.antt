-- ===== src/Agent/Route.antt =====
-- Where a system message came from (`processSystemMessage` of pkg/agent/loop.go), and the chat
-- identifiers that name an origin (pkg/tools/subagent.go, pkg/channels/base.go).
use picoclawnim.Base.{
  ℕ, suc, ◌+◌, ◌≡◌, ◌<◌, refl, Bool, false, Option, none, some, [], ◌∷◌, ◌++◌, arith, Str, str,
  ◌==◌, if◌then◌else◌, ltb, take, drop, length, any, take-append,
}

-- `strings.Index(s, ":")`, with `none` for -1.
unfoldable pub index_colon : Str → Option ℕ
index_colon [] = none
index_colon (c ∷ s) =
    if c == b':' then some 0 else elim (index_colon s) [ none ↦ none | some i ↦ some (suc i) ]

pub record Origin : Type 0 where
  pub channel : Str
  pub chat_id : Str

origin_at : Str → Option ℕ → Origin
origin_at chat none = record { channel = str "cli"; chat_id = chat }
origin_at chat (some i) =
    if ltb 0 i
    then record { channel = take i chat; chat_id = drop (i + 1) chat }
    else record { channel = str "cli"; chat_id = chat }

unfoldable pub parse_origin : Str → Origin
unfolding origin_at
parse_origin chat = origin_at chat (index_colon chat)

-- `fmt.Sprintf("%s:%s", channel, chatID)`
unfoldable pub join_key : Str → Str → Str
join_key channel chat = channel ++ (b':' ∷ chat)

abbrev pub has_colon : Str → Bool
has_colon s = any (λ c. c == b':') s

index_colon-append :
    (s t : Str) → has_colon s ≡ false → index_colon (s ++ b':' ∷ t) ≡ some (length s)
unfolding index_colon
index_colon-append [] t h = refl
index_colon-append (c ∷ s) t h = ground (arith, index_colon-append s t)

drop_past : (s t : Str) → drop (length s + 1) (s ++ b':' ∷ t) ≡ t
drop_past [] t = refl
drop_past (c ∷ s) t =
    let e : suc (length s) + 1 ≡ suc (length s + 1) = omega arith in rw e (drop_past s t)

-- The announcement of a subagent is routed back to where the subagent came from: the origin that is
-- read from `channel:chat` is the channel and the chat, for each channel name that is not empty and
-- has no colon, whatever the chat.
pub parse_origin-join_key :
    (channel chat : Str)
    → has_colon channel ≡ false
    → 0 < length channel
    → parse_origin (join_key channel chat) ≡ record { channel = channel; chat_id = chat }
unfolding parse_origin join_key
parse_origin-join_key channel chat h pos =
    rw (index_colon-append channel chat h, origin_at)
      (ground (arith, drop_past channel chat, take-append channel (b':' ∷ chat)))
