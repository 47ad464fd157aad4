-- ===== src/Core/InnerLoop/Broadcast.antt =====
-- backend/telemetry_core/src/aggregator/inner_loop.rs: what is broadcast to the feeds of a chain goes
-- to its subscribers.
use substrate_telemetry.Prelude.{
  ℕ, ◌≡◌, sym, ap, ◌∙◌, inl, inr, ◌⊎◌, ◌↔◌, Option, none, some, List, [], ◌∷◌, ◌++◌, nat_key,
  ℕ_discrete, arith, and_then,
}
use substrate_telemetry.Prelude.HashMap
use substrate_telemetry.Prelude.HashMap.{HashMap}
use substrate_telemetry.Common.MultiMapUnique
use substrate_telemetry.Common.MultiMapUnique.Refinement.{belongs}
use substrate_telemetry.Common.NodeTypes.{BlockHash}
use substrate_telemetry.Core.Feed.{Feed, FeedMessage}
use substrate_telemetry.Core.InnerLoop.{
  ConnId, Feeds, Sent, send, send_if_open, send_to, send_to_values,
  finalize_and_broadcast_to_chain_feeds,
}
use substrate_telemetry.Core.InnerLoop.Subscriptions.{subscription, IsValid}

-- That something is sent.
abbrev pub Sends : Sent → List Sent → Type 0
Sends x [] = ⊥
Sends x (y ∷ ys) = (x ≡ y) ⊎ Sends x ys

Sends-append : (x : Sent) (ys zs : List Sent) → Sends x (ys ++ zs) ↔ (Sends x ys ⊎ Sends x zs)
Sends-append x [] zs = (λ h. inr h, λ h. elim h [ inl n ↦ absurd n | inr k ↦ k ])
Sends-append x (y ∷ ys) zs = (
  λ h. elim h [
    | inl e ↦ inl (inl e)
    | inr k ↦ elim ((Sends-append x ys zs).0 k) [ inl a ↦ inl (inr a) | inr b ↦ inr b ]
  ],
  λ h. elim h [
    | inl a ↦ elim a [ inl e ↦ inl e | inr k ↦ inr ((Sends-append x ys zs).1 (inl k)) ]
    | inr b ↦ inr ((Sends-append x ys zs).1 (inr b))
  ],
)

Sends-send_if_open :
    (x : Sent) (o : Option ℕ) (m : FeedMessage) (f : Feed)
    → Sends x (send_if_open o (m ∷ f)) ↔ ((o ≡ some x.0) × (x.1 ≡ m ∷ f))
unfolding send_if_open send
Sends-send_if_open x none m f = (λ h. absurd h, λ (e, k). ground arith)
Sends-send_if_open x (some c) m f = (
  λ h. elim h [
    | inl e ↦ (ap some (sym (ap (λ (y : Sent). y.0) e)), ap (λ (y : Sent). y.1) e)
    | inr n ↦ absurd n
  ],
  λ (e, k). inl cc,
)

-- Some feed among these has the channel, and the message is the one that is broadcast.
abbrev Reaches : Sent → (ConnId → Type 0) → FeedMessage → Feed → HashMap ConnId ℕ → Type 0
Reaches x P m f channels =
    (w : ConnId) × (P w × ((HashMap.get w channels ≡ some x.0) × (x.1 ≡ m ∷ f)))

Sends-send_to :
    (x : Sent) (es : HashMap ConnId Unit) (m : FeedMessage) (f : Feed) (channels : HashMap ConnId ℕ)
    → Sends x (send_to es (m ∷ f) channels)
      ↔ Reaches x (λ w. HashMap.get w es ≡ some tt) m f channels
unfolding send_to HashMap.get
Sends-send_to x [] m f channels = (λ h. absurd h, λ (w, (e, k)). ground arith)
Sends-send_to x (e ∷ es) m f channels = (
  λ h.
      elim ((Sends-append x (send_if_open (HashMap.get e.0 channels) (m ∷ f))
          (send_to es (m ∷ f) channels)).0
        h) [
          | inl a ↦
              let k = (Sends-send_if_open x (HashMap.get e.0 channels) m f).0 a in
              (e.0, (ground arith, k))
          | inr b ↦
              let (w, (p, k)) = (Sends-send_to x es m f channels).0 b in (w, (ground (arith, p), k))
        ],
  λ (w, (p, k)).
      (Sends-append x (send_if_open (HashMap.get e.0 channels) (m ∷ f))
          (send_to es (m ∷ f) channels)).1
        (elim (ℕ_discrete e.0 w) [
          | yes q ↦ inl (
              (Sends-send_if_open x (HashMap.get e.0 channels) m f).1
                (ap (λ i. HashMap.get i channels) q ∙ k.0, k.1))
          | no n ↦ inr ((Sends-send_to x es m f channels).1 (w, (ground (arith, p, n), k)))
        ]),
)

Sends-send_to_values :
    (x : Sent) (o : Option (HashMap ConnId Unit)) (m : FeedMessage) (f : Feed)
    (channels : HashMap ConnId ℕ)
    → Sends x (send_to_values o (m ∷ f) channels)
      ↔ Reaches x (λ w. and_then o (HashMap.get w) ≡ some tt) m f channels
unfolding send_to_values
Sends-send_to_values x none m f channels = (λ h. absurd h, λ (w, (e, k)). ground arith)
Sends-send_to_values x (some es) m f channels = Sends-send_to x es m f channels

belongs-some : (o : Option BlockHash) (h : BlockHash) → belongs o h ≡ some tt ↔ (o ≡ some h)
belongs-some none h = (λ e. ground arith, λ e. ground arith)
belongs-some (some j) h = (λ e. ground (arith, e), λ e. ground (arith, e))

-- From valid subscriptions, what is broadcast to the feeds of a chain is sent on a channel exactly
-- if it is the channel of a feed that is subscribed to the chain.
pub broadcast-subscribers :
    (genesis_hash : BlockHash) (m : FeedMessage) (f : Feed) (s : Feeds) (x : Sent)
    → IsValid s
    → Sends x (finalize_and_broadcast_to_chain_feeds genesis_hash (m ∷ f) s) ↔ (
        (w : ConnId) × ((subscription w s ≡ some genesis_hash)
          × ((HashMap.get w s.feed_channels ≡ some x.0) × (x.1 ≡ m ∷ f))))
unfolding finalize_and_broadcast_to_chain_feeds MultiMapUnique.get_values
broadcast-subscribers genesis_hash m f s x h =
    let sets = s.chain_to_feed_conn_ids.key_to_values in
    let all = Sends-send_to_values x (HashMap.get genesis_hash sets) m f s.feed_channels in
    (
      λ k.
          let (w, (p, r)) = all.0 k in
          (
            w,
            (
              (belongs-some (subscription w s) genesis_hash).0
                  (sym (h.subscriptions.agree genesis_hash w) ∙ p),
              r,
            ),
          ),
      λ (w, (p, r)). all.1 (
        w,
        (
          h.subscriptions.agree genesis_hash w ∙ (belongs-some (subscription w s) genesis_hash).1 p,
          r,
        ),
      ),
    )
