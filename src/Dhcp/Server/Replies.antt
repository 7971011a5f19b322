-- ===== src/Dhcp/Server/Replies.antt =====
-- What `dhcp_server_process` answers and records (src/dhcp_server.c).
use flux_wan.Base.{
  ℕ, ◌^◌, ◌<◌, ◌≡◌, refl, ◌≢◌, ◌∙◌, ap, inl, inr, List, true, false, not, ◌||◌, Option, none, some,
  ltb, ◌==◌, if◌then◌else◌, Bool-cases, bytes_eq, get_or, length, All, arith,
}
use mathlib.Core.Option.{map}
use flux_wan.Dhcp.Options.{get_dhcp_option, value}
use flux_wan.Dhcp.Options.RoundTrip.{encode, find, IsOption, get_dhcp_option-append_options}
use flux_wan.Dhcp.Leases.{
  max_dhcp_leases, Lan, Lease, Ctx, htonl, find_lease_by_mac, allocate_next_ip, renewed,
}
use flux_wan.Dhcp.Leases.Records.{is_found}
use flux_wan.Dhcp.Leases.Records.Update.{find-update, find-update_other}
use flux_wan.Dhcp.Server.{
  Packet, dhcp_magic_cookie, dhcp_discover, dhcp_offer, dhcp_request, dhcp_ack, opt_hostname,
  opt_msg_type, opt_req_ip, word_bytes, read_word, hostname_of, own_name, mac_of, reply_options,
  reply, on_discover, assigned_ip, on_request, dispatch, on_message, process,
}

pub read_word-word_bytes : (n : ℕ) → n < 2 ^ 32 → read_word (word_bytes n) ≡ n
unfolding read_word word_bytes get_or
read_word-word_bytes n h = omega arith

-- A datagram that the server looks at, of a message type.
pub record IsMessage (beyond n : ℕ) (req : Packet) (type : ℕ) : Type 0 where
  pub header :
      (ltb n 240 || not (htonl req.magic == dhcp_magic_cookie) || not (req.op == 1)) ≡ false
  pub foreign : bytes_eq (hostname_of (get_dhcp_option req.options opt_hostname)) own_name ≡ false
  pub typed : map (λ o. get_or o.0 0 beyond) (get_dhcp_option req.options opt_msg_type) ≡ some type

module _ (inet_pton : List ℕ → Option ℕ) (beyond : ℕ) where
  reply_options-ok : (lan : Lan) (type : ℕ) → All IsOption (reply_options inet_pton beyond lan type)
  unfolding reply_options
  reply_options-ok lan type = ground arith

  reply_options-size :
      (lan : Lan) (type : ℕ) → length (encode (reply_options inet_pton beyond lan type)) < 308
  unfolding reply_options encode word_bytes
  reply_options-size lan type = omega arith

  -- The options of a reply read back as the list that the server sets, and an option that is not in
  -- the list is not found.
  pub reply-options :
      (lan : Lan) (req : Packet) (type ip opt : ℕ)
      → value (get_dhcp_option (reply inet_pton beyond lan req type ip).options opt)
        ≡ find (reply_options inet_pton beyond lan type) opt
  unfolding reply
  reply-options lan req type ip opt =
      get_dhcp_option-append_options 308 (reply_options inet_pton beyond lan type) opt
        (reply_options-ok lan type) (reply_options-size lan type)

  on_message_typed :
      (ctx : Ctx) (req : Packet) (now type : ℕ) (o : Option (List ℕ × ℕ))
      → bytes_eq (hostname_of (get_dhcp_option req.options opt_hostname)) own_name ≡ false
      → map (λ o'. get_or o'.0 0 beyond) o ≡ some type
      → on_message inet_pton beyond ctx req now o
        ≡ dispatch inet_pton beyond ctx req
            (hostname_of (get_dhcp_option req.options opt_hostname))
            now
            type
  on_message_typed ctx req now type none f t = ground arith
  on_message_typed ctx req now type (some (rest, len)) f t = rw f (
      let e : get_or rest 0 beyond ≡ type = ground arith in
      ap
        (dispatch inet_pton beyond ctx req (hostname_of (get_dhcp_option req.options opt_hostname))
          now)
        e)

  process-dispatch :
      (ctx : Ctx) (n : ℕ) (req : Packet) (now : ℕ) {type : ℕ}
      → IsMessage beyond n req type
      → process inet_pton beyond ctx n req now
        ≡ dispatch inet_pton beyond ctx req
            (hostname_of (get_dhcp_option req.options opt_hostname))
            now
            type
  unfolding process
  process-dispatch ctx n req now m =
      rw m.header (
        on_message_typed ctx req now _ (get_dhcp_option req.options opt_msg_type) m.foreign m.typed)

  dispatch-discover :
      (ctx : Ctx) (req : Packet) (name : List ℕ) (now : ℕ)
      → let ip = allocate_next_ip ctx (mac_of req) in
        dispatch inet_pton beyond ctx req name now dhcp_discover
        ≡ (ctx, if ip == 0 then none else some (reply inet_pton beyond ctx.lan req dhcp_offer ip))
  unfolding dispatch on_discover
  dispatch-discover ctx req name now = elim (Bool-cases (allocate_next_ip ctx (mac_of req) == 0)) [
    | inl b ↦ rw b refl
    | inr b ↦ rw b refl
  ]

  dispatch-request :
      (ctx : Ctx) (req : Packet) (name : List ℕ) (now : ℕ)
      → let ip = assigned_ip inet_pton beyond ctx req (get_dhcp_option req.options opt_req_ip) in
        let (ctx', answer) = dispatch inet_pton beyond ctx req name now dhcp_request in
        let found = find_lease_by_mac ctx' (mac_of req) in
        (answer ≡ some (reply inet_pton beyond ctx.lan req dhcp_ack ip))
        × (map (λ l. l.ip_addr) found ≡ some ip)
        × (map (λ l. l.is_active) found ≡ some true)
  unfolding dispatch on_request renewed
  dispatch-request ctx req name now =
      let ip = assigned_ip inet_pton beyond ctx req (get_dhcp_option req.options opt_req_ip) in
      let found = find-update ctx (mac_of req) ip name now in (refl, rw found refl, rw found refl)

  dispatch-request_other :
      (ctx : Ctx) (req : Packet) (name : List ℕ) (now : ℕ) (mac : List ℕ)
      → mac_of req ≢ mac
      → (is_found (find_lease_by_mac ctx (mac_of req)) || ltb (length ctx.leases) max_dhcp_leases)
        ≡ true
      → find_lease_by_mac (dispatch inet_pton beyond ctx req name now dhcp_request).0 mac
        ≡ find_lease_by_mac ctx mac
  unfolding dispatch on_request
  dispatch-request_other ctx req name now mac other room =
      find-update_other ctx (mac_of req) mac
        (assigned_ip inet_pton beyond ctx req (get_dhcp_option req.options opt_req_ip)) name now
        other room

  -- A DISCOVER is answered with an OFFER of the allocated address, and not at all if the pool is
  -- exhausted; it records nothing.
  pub process-discover :
      (ctx : Ctx) (n : ℕ) (req : Packet) (now : ℕ)
      → IsMessage beyond n req dhcp_discover
      → let ip = allocate_next_ip ctx (mac_of req) in
        process inet_pton beyond ctx n req now
        ≡ (ctx, if ip == 0 then none else some (reply inet_pton beyond ctx.lan req dhcp_offer ip))
  process-discover ctx n req now m =
      process-dispatch ctx n req now m ∙ dispatch-discover ctx req _ now

  pub process-request :
      (ctx : Ctx) (n : ℕ) (req : Packet) (now : ℕ)
      → IsMessage beyond n req dhcp_request
      → let ip = assigned_ip inet_pton beyond ctx req (get_dhcp_option req.options opt_req_ip) in
        let (ctx', answer) = process inet_pton beyond ctx n req now in
        let found = find_lease_by_mac ctx' (mac_of req) in
        (answer ≡ some (reply inet_pton beyond ctx.lan req dhcp_ack ip))
        × (map (λ l. l.ip_addr) found ≡ some ip)
        × (map (λ l. l.is_active) found ≡ some true)
  process-request ctx n req now m =
      rw (process-dispatch ctx n req now m) (dispatch-request ctx req _ now)

  -- A REQUEST that the server looks at and that asks by option 50 for an address that another
  -- client's lease has is granted: the other client's lease stays as it was, and both leases then
  -- have the address. The client is known, or the table is not full.
  pub process-request_taken :
      (ctx : Ctx) (n : ℕ) (req : Packet) (now : ℕ) (mac : List ℕ) (l : Lease) (rest : List ℕ)
      → IsMessage beyond n req dhcp_request
      → mac_of req ≢ mac
      → (is_found (find_lease_by_mac ctx (mac_of req)) || ltb (length ctx.leases) max_dhcp_leases)
        ≡ true
      → find_lease_by_mac ctx mac ≡ some l
      → get_dhcp_option req.options opt_req_ip ≡ some (rest, 4)
      → read_word rest ≡ l.ip_addr
      → let (ctx', answer) = process inet_pton beyond ctx n req now in
        (answer ≡ some (reply inet_pton beyond ctx.lan req dhcp_ack l.ip_addr))
        × (find_lease_by_mac ctx' mac ≡ some l)
        × (map (λ x. x.ip_addr) (find_lease_by_mac ctx' (mac_of req)) ≡ some l.ip_addr)
  process-request_taken ctx n req now mac l rest m other room held asks at =
      let (answer, address, active) = process-request ctx n req now m in
      let ip : assigned_ip inet_pton beyond ctx req (get_dhcp_option req.options opt_req_ip)
          ≡ l.ip_addr =
        rw asks at in
      let kept = dispatch-request_other ctx req _ now mac other room in
      (
        answer ∙ ap (λ a. some (reply inet_pton beyond ctx.lan req dhcp_ack a)) ip,
        rw (process-dispatch ctx n req now m) (kept ∙ held),
        address ∙ ap some ip,
      )
