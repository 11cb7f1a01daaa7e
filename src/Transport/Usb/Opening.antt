-- ===== src/Transport/Usb/Opening.antt =====
-- `UsbConnection::new` of packages/transport/src/connection/usb.rs, with `open_device` as it is on
-- systems other than Windows. What the `nusb` library answers is a parameter.
use adb_daemon_rs.Base.{
  ℕ, ◌≤◌, ◌≡◌, subst, Bool, true, false, ◌&&◌, List, [], ◌∷◌, Bytes, Option, none, some, Result, ok,
  err, ltb, ◌==◌, nat_eq, if◌then◌else◌, ◌>>=◌, ok_or, map_err, bind_ok, inl, arith,
}
use adb_daemon_rs.Text.{codes}
use adb_daemon_rs.Transport.Error.{
  Error, of_kind, new, foreign, text, UsbError, unsupported, claim, other_usb, usb,
}
use adb_daemon_rs.Transport.Message.{header_length}
use adb_daemon_rs.Transport.Endpoint.{Endpoint}
use adb_daemon_rs.Transport.Usb.{Usb, poll_read_message}
use adb_daemon_rs.Transport.Usb.Reading.{Expects, ReadEnds, poll_read_message-ReadEnds}

pub record Interface : Type 0 where
  pub class : ℕ
  pub subclass : ℕ
  pub protocol : ℕ
  pub number : ℕ

pub data TransferType : Type 0 where
  bulk other_type : TransferType

pub data Direction : Type 0 where
  inward outward : Direction

pub record EndpointDescriptor : Type 0 where
  pub transfer_type : TransferType
  pub direction : Direction
  pub max_packet_size : ℕ
  pub address : ℕ

is_adb : Interface → Bool
is_adb i = i.class == 0xff && i.subclass == 0x42 && i.protocol == 0x1

-- The tests of the two kinds of endpoints.
abbrev is_in : EndpointDescriptor → Bool
is_in e = elim e.transfer_type [
  | bulk ↦ elim e.direction [ inward ↦ true | outward ↦ false ]
  | other_type ↦ false
]

abbrev is_out : EndpointDescriptor → Bool
is_out e = elim e.transfer_type [
  | bulk ↦ elim e.direction [ inward ↦ false | outward ↦ true ]
  | other_type ↦ false
]

-- `Iterator::find`.
abbrev find {ℓ} : {A : Type ℓ} → (A → Bool) → List A → Option A
find p [] = none
find p (x ∷ xs) = let rest = find p xs in if p x then some x else rest

module _ (In Out : Endpoint) where
  -- A device, and what the library answers when it is opened: the interface that is claimed may have
  -- a description, which has endpoints.
  pub record Device : Type 0 where
    pub interfaces : List Interface
    pub opened : Result Error (Unit {0})
    pub claim_interface : ℕ → Result (Unit {0}) (Option (List EndpointDescriptor))
    pub in_endpoint : ℕ → Result Error In.State
    pub out_endpoint : ℕ → Result Error Out.State

  unfoldable pub open_device : Device → Result Error ℕ
  unfolding is_adb
  open_device d = ok_or (find is_adb d.interfaces) (of_kind (usb unsupported)) >>= λ i.
      d.opened >>= λ _. ok i.number

  abbrev usb_error {ℓ} : {A : Type ℓ} → UsbError → Bytes → Result Error A
  usb_error kind message = err (new (usb kind) (text message))

  abbrev same_size : EndpointDescriptor → EndpointDescriptor → Result Error (Unit {0})
  same_size i o =
      if i.max_packet_size == o.max_packet_size
      then ok tt
      else usb_error other_usb (codes "in packet size != out packet size")

  abbrev large_enough : ℕ → Result Error (Unit {0})
  large_enough packet_size =
      if ltb packet_size header_length
      then usb_error unsupported (codes "packet_size < header len")
      else ok tt

  -- `UsbConnection::new`.
  unfoldable pub new_usb : Device → Result Error (Usb In Out)
  unfolding open_device
  new_usb d = open_device d >>= λ iface.
      map_err (λ _. new (usb claim) foreign) (d.claim_interface iface) >>= λ described.
      ok_or described (new (usb other_usb) (text (codes "no interface"))) >>= λ endpoints.
      ok_or (find is_in endpoints) (new (usb unsupported) (text (codes "no in endpoint")))
      >>= λ in_ep.
          ok_or (find is_out endpoints) (new (usb unsupported) (text (codes "no out endpoint")))
          >>= λ out_ep. same_size in_ep out_ep >>= λ _. large_enough in_ep.max_packet_size >>= λ _.
              d.in_endpoint in_ep.address >>= λ i. d.out_endpoint out_ep.address >>= λ o.
              ok (record {
                in_endpoint = i;
                out_endpoint = o;
                packet_size = in_ep.max_packet_size;
                in_header = none;
              })

  -- A new connection, ready for its first poll and its first write.
  pub record IsReady (u : Usb In Out) : Type 0 where
    pub large : header_length ≤ u.packet_size
    pub phase : Expects u.packet_size u.in_header (In.queue u.in_endpoint)
    pub flushed : Out.queue u.out_endpoint ≡ []
    pub reads : ReadEnds In Out u.packet_size (poll_read_message In Out u)

  -- An endpoint that was opened has no transfers yet.
  abbrev pub OpensEmpty : Device → Type 0
  OpensEmpty d =
      ((a : ℕ) (s : In.State) → d.in_endpoint a ≡ ok s → In.queue s ≡ [])
      × ((a : ℕ) (s : Out.State) → d.out_endpoint a ≡ ok s → Out.queue s ≡ [])

  large_enough-ok : (n : ℕ) → large_enough n ≡ ok tt → header_length ≤ n
  large_enough-ok n h = ground (arith, h)

  same_usb : (u v : Usb In Out) → Path (Result Error (Usb In Out)) (ok u) (ok v) → u ≡ v
  same_usb u v e = cc

  built-IsReady :
      (n : ℕ) (i : In.State) (o : Out.State)
      → header_length ≤ n
      → In.queue i ≡ []
      → Out.queue o ≡ []
      → IsReady (record { in_endpoint = i; out_endpoint = o; packet_size = n; in_header = none })
  built-IsReady n i o large qi qo = record {
    large = large;
    phase = inl qi;
    flushed = qo;
    reads =
        poll_read_message-ReadEnds In Out
          (record { in_endpoint = i; out_endpoint = o; packet_size = n; in_header = none })
          (omega (arith, large)) (inl qi);
  }

  -- If a device is opened as a connection, its packets hold a header, no transfer is queued, and so
  -- the first poll for a message cannot panic and the first write finds a flushed connection. The
  -- endpoints that the library opens have no transfers yet.
  pub new_usb-IsReady : (d : Device) (u : Usb In Out) → OpensEmpty d → new_usb d ≡ ok u → IsReady u
  unfolding new_usb
  new_usb-IsReady d u (empty_in, empty_out) h =
      let (iface, _, h) = bind_ok (open_device d) _ u h in
      let (described, _, h) = bind_ok (map_err _ (d.claim_interface iface)) _ u h in
      let (endpoints, _, h) = bind_ok (ok_or described _) _ u h in
      let (in_ep, _, h) = bind_ok (ok_or (find is_in endpoints) _) _ u h in
      let (out_ep, _, h) = bind_ok (ok_or (find is_out endpoints) _) _ u h in
      let (_, same, h) = bind_ok (same_size in_ep out_ep) _ u h in
      let (_, large, h) = bind_ok (large_enough in_ep.max_packet_size) _ u h in
      let (i, opened_in, h) = bind_ok (d.in_endpoint in_ep.address) _ u h in
      let (o, opened_out, h) = bind_ok (d.out_endpoint out_ep.address) _ u h in
      subst IsReady (same_usb _ u h) (
        built-IsReady in_ep.max_packet_size i o (large_enough-ok in_ep.max_packet_size large)
          (empty_in in_ep.address i opened_in) (empty_out out_ep.address o opened_out))
