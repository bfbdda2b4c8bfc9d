-- ===== src/Gateway/Client/Laws.antt =====
-- What the options and the client's small operations keep (gateway/gateway.go).
use warmbly_go.Common.{
  ◌≤◌, ◌<◌, ◌≡◌, ◌≢◌, refl, Bool, true, false, List, [], ◌∷◌, ◌++◌, if◌then◌else◌, length, All,
  arith,
}
use warmbly_go.Common.Int.{pos, negsuc, ltb_ℤ, ◌≤ℤ◌}
use warmbly_go.Common.Text.{String, str_eq, eq_iff}
use warmbly_go.Gateway.Client.{
  Client, Setting, at_url, intent_list, topic_list, reconnect_backoff, event_buffer, resume_from,
  apply, apply_all, new_client, add_trimmed, default_client,
}

-- What every option keeps: an address, positive bounds of the wait, room for an event, a position
-- that is not negative, and no empty name.
abbrev pub IsConfigured : Client → Type 0
IsConfigured c =
    ((c.url ≢ "")
      × (ltb_ℤ (pos 0) c.backoff_min ≡ true)
      × (ltb_ℤ (pos 0) c.backoff_max ≡ true)
      × (0 < c.buffer)
      × (length c.events ≤ c.buffer)
      × (pos 0 ≤ℤ c.last_seq))
    × All (λ t. t ≢ "") c.intents
    × All (λ t. t ≢ "") c.topics

append-All {ℓ κ} :
    {A : Type ℓ} (P : A → Type κ) (xs : List A) (x : A) → All P xs → P x → All P (xs ++ (x ∷ []))
append-All P [] x h p = (p, tt)
append-All P (y ∷ ys) x (q, h) p = (q, append-All P ys x h p)

add_trimmed-named :
    (trim : String → String) (acc ts : List String)
    → All (λ t. t ≢ "") acc
    → All (λ t. t ≢ "") (add_trimmed trim acc ts)
add_trimmed-named trim acc [] h = h
add_trimmed-named trim acc (t ∷ ts) h =
    add_trimmed-named trim (if str_eq (trim t) "" then acc else acc ++ (trim t ∷ [])) ts
      (if-named (str_eq (trim t) "") refl)
  where
    if-named :
        (b : Bool)
        → str_eq (trim t) "" ≡ b
        → All (λ s. s ≢ "") (if b then acc else acc ++ (trim t ∷ []))
    if-named true e = h
    if-named false e = append-All _ acc (trim t) h (λ z. ground (arith, eq_iff (trim t) ""))

apply-IsConfigured :
    (trim : String → String) (o : Setting) (c : Client)
    → IsConfigured c
    → IsConfigured (apply trim o c)
apply-IsConfigured trim (at_url u) c (h, is, ts) =
    (ground (arith, eq_iff u ""), ground (arith, is), ground (arith, ts))
apply-IsConfigured trim (intent_list xs) c (h, is, ts) =
    (h, add_trimmed-named trim c.intents xs is, ts)
apply-IsConfigured trim (topic_list xs) c (h, is, ts) =
    (h, is, add_trimmed-named trim c.topics xs ts)
apply-IsConfigured trim (reconnect_backoff l m) c (h, is, ts) =
    (ground arith, ground (arith, is), ground (arith, ts))
apply-IsConfigured trim (event_buffer (pos n)) c (h, is, ts) =
    (ground arith, ground (arith, is), ground (arith, ts))
apply-IsConfigured trim (event_buffer (negsuc n)) c h = h
apply-IsConfigured trim (resume_from n) c (h, is, ts) =
    (ground arith, ground (arith, is), ground (arith, ts))

apply_all-IsConfigured :
    (trim : String → String) (os : List Setting) (c : Client)
    → IsConfigured c
    → IsConfigured (apply_all trim os c)
apply_all-IsConfigured trim [] c h = h
apply_all-IsConfigured trim (o ∷ os) c h =
    apply_all-IsConfigured trim os (apply trim o c) (apply-IsConfigured trim o c h)

-- Whatever options `New` is given, the client has an address, positive bounds of the wait, room for
-- an event, a position that is not negative, and no empty name of an intent or a topic.
pub new_client-IsConfigured :
    (trim : String → String) (token org_id : String) (os : List Setting)
    → IsConfigured (new_client trim token org_id os)
unfolding new_client
new_client-IsConfigured trim token org_id os =
    apply_all-IsConfigured trim os (default_client token org_id) (
      (
        (λ z. ground (arith, eq_iff (default_client token org_id).url "")),
        refl,
        refl,
        omega arith,
        omega arith,
        omega arith,
      ),
      tt,
      tt,
    )
