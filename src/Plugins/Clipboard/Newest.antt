-- ===== src/Plugins/Clipboard/Newest.antt =====
-- Which text wins in plugins/sf_clipboard/clipboardplugin.cpp.
use harbour_sailfishconnect.Base.{
  beq_refl, String, Bool, true, false, ◌≡◌, refl, sym, ap, ◌∙◌, ◌⊎◌, inl, inr, List, [], ◌∷◌, All,
  if◌then◌else◌, ◌==◌, string_eq, ℤ, ltb_ℤ, arith, if_elim, subst, Bool-cases,
}
use harbour_sailfishconnect.Base.Dict.{lookup}
use harbour_sailfishconnect.Plugins.Packet.{Conversions, NetworkPacket, text, number}
use harbour_sailfishconnect.Plugins.Clipboard.{
  ClipboardPlugin, get_text, get_number, store, receive_packet,
}

-- The packet that a device sends on connection: its clipboard's text, and when that was set.
abbrev pub connect_packet : String × ℤ → NetworkPacket
connect_packet (content, timestamp) = record {
  kind = "kdeconnect.clipboard.connect";
  body = ("content", text content) ∷ ("timestamp", number timestamp) ∷ [];
}

-- The time has not passed t.
abbrev pub NotAfter : ℤ → String × ℤ → Type 0
NotAfter t (content, timestamp) = ltb_ℤ t timestamp ≡ false

-- The plugin holds what it held before, or the content and the time of one of the packets.
abbrev pub From : ClipboardPlugin → ClipboardPlugin → List (String × ℤ) → Type 0
From q p [] = q ≡ p
From q p ((content, timestamp) ∷ more) =
    (q ≡ record { current_content = content; update_timestamp = timestamp }) ⊎ From q p more

-- No packet, and not the plugin before, was newer than what the plugin holds.
pub record HoldsNewest (q p : ClipboardPlugin) (news : List (String × ℤ)) : Type 0 where
  pub not_before : ltb_ℤ q.update_timestamp p.update_timestamp ≡ false
  pub not_after : All (NotAfter q.update_timestamp) news
  pub held : From q p news

-- The program: the plugins of the devices, which have identities, and the clipboard.
pub record Program : Type 0 where
  pub plugin_of : String → ClipboardPlugin
  pub clipboard : String

-- A packet on connection, with the device that sends it.
abbrev pub Packet : Type 0
Packet = String × String × ℤ

-- What one device sends among the packets.
abbrev pub of_device : String → List Packet → List (String × ℤ)
of_device device [] = []
of_device device ((sender, content, timestamp) ∷ more) =
    if sender == device then (content, timestamp) ∷ of_device device more else of_device device more

-- What taking a packet, or not, makes of a plugin.
abbrev taken : String × ℤ → ClipboardPlugin → ClipboardPlugin
taken (content, timestamp) p =
    if ltb_ℤ p.update_timestamp timestamp
    then record { current_content = content; update_timestamp = timestamp }
    else p

-- The sender's plugin and the clipboard are others.
abbrev delivered : String → Program → ClipboardPlugin × String → Program
delivered sender s (p, clipboard) = record {
  plugin_of = λ device. if sender == device then p else s.plugin_of device;
  clipboard = clipboard;
}

module _ (qv : Conversions) (now : ℤ) where
  -- The sender's plugin receives the packet.
  abbrev pub deliver : Packet → Program → Program
  deliver (sender, content, timestamp) s =
      delivered sender s (
        receive_packet qv now (connect_packet (content, timestamp)) (s.plugin_of sender)
          s.clipboard)

  abbrev pub deliver_all : List Packet → Program → Program
  deliver_all [] s = s
  deliver_all (packet ∷ more) s = deliver_all more (deliver packet s)

  receive_connect :
      (content : String) (timestamp : ℤ) (p : ClipboardPlugin) (clipboard : String)
      → receive_packet qv now (connect_packet (content, timestamp)) p clipboard
        ≡ (if ltb_ℤ p.update_timestamp timestamp then store content timestamp else (p, clipboard))
  unfolding receive_packet get_text get_number lookup
  receive_connect content timestamp p clipboard = refl

  received :
      (news : String × ℤ) (p : ClipboardPlugin) (clipboard : String)
      → (receive_packet qv now (connect_packet news) p clipboard).0 ≡ taken news p
  unfolding store
  received (content, timestamp) p clipboard = rw (receive_connect content timestamp p clipboard) (
      if_elim (λ (r : ClipboardPlugin × String). r.0 ≡ taken (content, timestamp) p)
        (ltb_ℤ p.update_timestamp timestamp) (λ t. rw t refl) (λ f. rw f refl))

  later :
      (t u v : ℤ)
      → ltb_ℤ t (if ltb_ℤ u v then v else u) ≡ false
      → (ltb_ℤ t u ≡ false) × (ltb_ℤ t v ≡ false)
  later t u v h = ground arith

  taken_timestamp :
      (content : String) (timestamp : ℤ) (p : ClipboardPlugin)
      → (taken (content, timestamp) p).update_timestamp
        ≡ (if ltb_ℤ p.update_timestamp timestamp then timestamp else p.update_timestamp)
  taken_timestamp content timestamp p =
      if_elim
        (λ (q : ClipboardPlugin).
          q.update_timestamp
          ≡ (if ltb_ℤ p.update_timestamp timestamp then timestamp else p.update_timestamp))
        (ltb_ℤ p.update_timestamp timestamp) (λ t. rw t refl) (λ f. rw f refl)

  -- What is from a plugin that took a packet, or did not, is from the plugin before or the packet.
  From-stored :
      (q p : ClipboardPlugin) (content : String) (timestamp : ℤ) (news : List (String × ℤ))
      → From q (record { current_content = content; update_timestamp = timestamp }) news
      → From q p ((content, timestamp) ∷ news)
  From-stored q p content timestamp [] h = inl h
  From-stored q p content timestamp ((c, t) ∷ news) (inl h) = inr (inl h)
  From-stored q p content timestamp ((c, t) ∷ news) (inr h) =
      elim (From-stored q p content timestamp news h) [ inl e ↦ inl e | inr r ↦ inr (inr r) ]

  From-taken :
      (b : Bool) (q p : ClipboardPlugin) (content : String) (timestamp : ℤ)
      (news : List (String × ℤ))
      → From q
          (if b then record { current_content = content; update_timestamp = timestamp } else p)
          news
      → From q p ((content, timestamp) ∷ news)
  From-taken true q p content timestamp news h = From-stored q p content timestamp news h
  From-taken false q p content timestamp news h = inr h

  HoldsNewest-taken :
      (q p : ClipboardPlugin) (content : String) (timestamp : ℤ) (news : List (String × ℤ))
      → HoldsNewest q (taken (content, timestamp) p) news
      → HoldsNewest q p ((content, timestamp) ∷ news)
  HoldsNewest-taken q p content timestamp news h =
      let (before, own) = later q.update_timestamp p.update_timestamp timestamp (
        subst (λ u. ltb_ℤ q.update_timestamp u ≡ false) (taken_timestamp content timestamp p)
          h.not_before) in
      record {
        not_before = before;
        not_after = (own, h.not_after);
        held = From-taken (ltb_ℤ p.update_timestamp timestamp) q p content timestamp news h.held;
      }

  each_newest :
      (device : String) (packets : List Packet) (s : Program)
      → HoldsNewest
          ((deliver_all packets s).plugin_of device)
          (s.plugin_of device)
          (of_device device packets)
  each_newest device [] s = record { not_before = ground arith; not_after = tt; held = refl }
  each_newest device ((sender, content, timestamp) ∷ more) s =
      let next = deliver (sender, content, timestamp) s in
      let last = (deliver_all more next).plugin_of device in
      let rest = each_newest device more next in
      elim (Bool-cases (sender == device)) [
        | inl t ↦
            let same : s.plugin_of sender ≡ s.plugin_of device =
              ap s.plugin_of ((string_eq.beq_iff sender device).0 t) in
            let new : next.plugin_of device ≡ taken (content, timestamp) (s.plugin_of device) =
              rw t (
                received (content, timestamp) (s.plugin_of sender) s.clipboard
                ∙ ap (taken (content, timestamp)) same) in
            rw t (
              HoldsNewest-taken last (s.plugin_of device) content timestamp (of_device device more)
                (subst (λ p. HoldsNewest last p (of_device device more)) new rest))
        | inr f ↦
            let new : next.plugin_of device ≡ s.plugin_of device = rw f refl in
            rw f (subst (λ p. HoldsNewest last p (of_device device more)) new rest)
      ]

  -- The clipboard has the text of before, or what some device's plugin has last taken.
  abbrev pub Shown : String → Program → Type 0
  Shown before s =
      (s.clipboard ≡ before)
      ⊎ ((device : String) × ((s.plugin_of device).current_content ≡ s.clipboard))

  stored-Shown :
      (before sender content : String) (timestamp : ℤ) (s : Program)
      → Shown before (delivered sender s (store content timestamp))
  unfolding store
  stored-Shown before sender content timestamp s = inr (sender, rw (beq_refl sender) refl)

  kept-Shown :
      (before sender : String) (s : Program)
      → Shown before s
      → Shown before (delivered sender s (s.plugin_of sender, s.clipboard))
  kept-Shown before sender s (inl e) = inl e
  kept-Shown before sender s (inr (device, e)) = elim (Bool-cases (sender == device)) [
    | inl t ↦ inr (
      device,
      rw t (ap (λ d. (s.plugin_of d).current_content) ((string_eq.beq_iff sender device).0 t) ∙ e),
    )
    | inr f ↦ inr (device, rw f e)
  ]

  deliver-Shown :
      (before : String) (packet : Packet) (s : Program)
      → Shown before s
      → Shown before (deliver packet s)
  deliver-Shown before (sender, content, timestamp) s h =
      subst (λ r. Shown before (delivered sender s r))
        (sym (receive_connect content timestamp (s.plugin_of sender) s.clipboard))
        (if_elim (λ (r : ClipboardPlugin × String). Shown before (delivered sender s r))
          (ltb_ℤ (s.plugin_of sender).update_timestamp timestamp)
          (λ t. stored-Shown before sender content timestamp s) (λ f. kept-Shown before sender s h))

  all-Shown :
      (before : String) (packets : List Packet) (s : Program)
      → Shown before s
      → Shown before (deliver_all packets s)
  all-Shown before [] s h = h
  all-Shown before (packet ∷ more) s h =
      all-Shown before more (deliver packet s) (deliver-Shown before packet s h)

  -- The newest text of a device wins, for each device by itself. After packets on connection of any
  -- devices, mixed in any order, the plugin of each device holds its own text of before or that of
  -- one of its device's packets, and none of these was newer. The clipboard, which is one for all
  -- devices, has its text of before or the one that some device's plugin holds.
  pub newest_wins :
      (packets : List Packet) (s : Program)
      → ((device : String)
          → HoldsNewest
              ((deliver_all packets s).plugin_of device)
              (s.plugin_of device)
              (of_device device packets))
        × Shown s.clipboard (deliver_all packets s)
  newest_wins packets s =
      (λ device. each_newest device packets s, all-Shown s.clipboard packets s (inl refl))
