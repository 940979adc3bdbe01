-- ===== src/Wire/Receive.antt =====
-- What `processMessage` of pkg/network/protocol.go accepts as a frame, and what `writeMessage` makes.
use portask.Prelude.{
  ℕ, ◌%◌, ◌^◌, ◌≤◌, ◌<◌, ◌≡◌, refl, sym, subst, ap, ap₂, ◌∙◌, Option, none, some, List, ◌++◌, arith,
  length,
}
use portask.Prelude.Bytes.{
  ReadResult, complete, eof, unexpected_eof, read_full, read_full-append, read_full-complete,
}
use portask.Wire.Frame.{
  GoError, ProtocolHeader, header_bytes, parse_header, protocol_magic, protocol_version, ok,
  Services,
}
use portask.Wire.Handler.{receive, read_header, validate_header, accept_header}

-- The fields of a header fit their places in the frame.
pub record FitsFrame (h : ProtocolHeader) : Type 0 where
  pub magic_fits : h.magic < 2 ^ 32
  pub version_fits : h.version < 256
  pub kind_fits : h.kind < 256
  pub flags_fit : h.flags < 2 ^ 16
  pub length_fits : h.payload_length < 2 ^ 32
  pub checksum_fits : h.checksum < 2 ^ 32

pub header_path :
    (g h : ProtocolHeader)
    → g.magic ≡ h.magic
    → g.version ≡ h.version
    → g.kind ≡ h.kind
    → g.flags ≡ h.flags
    → g.payload_length ≡ h.payload_length
    → g.checksum ≡ h.checksum
    → g ≡ h
header_path g h a b c d e f = λ i. record {
  magic = a i;
  version = b i;
  kind = c i;
  flags = d i;
  payload_length = e i;
  checksum = f i;
}

pub parse_header-header_bytes :
    (h : ProtocolHeader) → FitsFrame h → parse_header (header_bytes h) ≡ h
unfolding parse_header header_bytes
parse_header-header_bytes h f =
    header_path _ h (omega (arith, f.magic_fits)) refl refl (omega (arith, f.flags_fit))
      (omega (arith, f.length_fits)) (omega (arith, f.checksum_fits))

length-header_bytes : (h : ProtocolHeader) → length (header_bytes h) ≡ 16
unfolding header_bytes
length-header_bytes h = refl

-- A header and payload that the receiver takes.
pub record IsFrame {M S : Type 0} (sv : Services M S) (max_size : ℕ) (h : ProtocolHeader)
    (payload : List ℕ) : Type 0 where
  pub magic_eq : h.magic ≡ protocol_magic
  pub version_eq : h.version ≡ protocol_version
  pub length_eq : h.payload_length ≡ length payload
  pub length_le : h.payload_length ≤ max_size % 2 ^ 32
  pub checksum_eq : h.checksum ≡ sv.checksum_ieee payload

module _ {M S : Type 0} (sv : Services M S) where
  validate_header-none :
      (max_size : ℕ) (h : ProtocolHeader)
      → h.magic ≡ protocol_magic
      → h.version ≡ protocol_version
      → h.payload_length ≤ max_size % 2 ^ 32
      → validate_header max_size h ≡ none
  unfolding validate_header
  validate_header-none m h a b c = ground arith

  accepted :
      (m : ℕ) (h : ProtocolHeader) (payload rest : List ℕ)
      → IsFrame sv m h payload
      → accept_header sv m h (payload ++ rest) ≡ (ok (h, payload), rest)
  unfolding accept_header
  accepted m h payload rest v = ground (
    arith,
    validate_header-none m h v.magic_eq v.version_eq v.length_le,
    read_full-append h.payload_length payload rest (sym v.length_eq),
  )

  -- A frame written with a payload that its header describes is received with exactly that header
  -- and payload, and the bytes behind it are left.
  pub receive-header_bytes :
      (max_size : ℕ) (h : ProtocolHeader) (payload rest : List ℕ)
      → FitsFrame h
      → IsFrame sv max_size h payload
      → receive sv max_size (header_bytes h ++ (payload ++ rest)) ≡ (ok (h, payload), rest)
  unfolding receive
  receive-header_bytes m h payload rest f v =
      rw (read_full-append 16 (header_bytes h) (payload ++ rest) (length-header_bytes h)) (
        ap (λ g. accept_header sv m g (payload ++ rest)) (parse_header-header_bytes h f)
        ∙ accepted m h payload rest v)

  validate_header-inv :
      (m : ℕ) (h : ProtocolHeader)
      → validate_header m h ≡ none
      → (h.magic ≡ protocol_magic)
        × (h.version ≡ protocol_version)
        × (h.payload_length ≤ m % 2 ^ 32)
  unfolding validate_header
  validate_header-inv m h e = ground arith

  accept_sound :
      (m : ℕ) (g : ProtocolHeader) (src : List ℕ) (v : Option GoError) (r : ReadResult)
      {h : ProtocolHeader} {payload rest : List ℕ}
      → validate_header m g ≡ v
      → read_full g.payload_length src ≡ r
      → accept_header sv m g src ≡ (ok (h, payload), rest)
      → (g ≡ h) × IsFrame sv m g payload × (src ≡ payload ++ rest)
  unfolding accept_header
  accept_sound m g src (some x) r v f e = absurd (ground (arith, v, e))
  accept_sound m g src none (complete bs left) {h} {payload} {rest} v f e =
      let same : (g ≡ h) × (bs ≡ payload) × (left ≡ rest) × (g.checksum ≡ sv.checksum_ieee bs) =
        ground (arith, v, f, e) in
      let (split, size) = read_full-complete g.payload_length src f in
      let valid = validate_header-inv m g v in
      (
        same.0,
        record {
          magic_eq = valid.0;
          version_eq = valid.1;
          length_eq = sym size ∙ ap length same.1;
          length_le = valid.2;
          checksum_eq = same.3 ∙ ap sv.checksum_ieee same.1;
        },
        split ∙ ap₂ ◌++◌ same.1 same.2,
      )
  accept_sound m g src none eof v f e = absurd (ground (arith, v, f, e))
  accept_sound m g src none unexpected_eof v f e = absurd (ground (arith, v, f, e))

  header_sound :
      (m : ℕ) (src : List ℕ) (r : ReadResult) {h : ProtocolHeader} {payload rest : List ℕ}
      → read_full 16 src ≡ r
      → read_header sv m r ≡ (ok (h, payload), rest)
      → (bs : List ℕ) × (src ≡ bs ++ (payload ++ rest))
        × (length bs ≡ 16)
        × (parse_header bs ≡ h)
        × IsFrame sv m h payload
  unfolding read_header
  header_sound m src (complete bs left) {payload = payload} f e =
      let (split, size) = read_full-complete 16 src f in
      let g = parse_header bs in
      let (same, frame, split') =
        accept_sound m g left (validate_header m g) (read_full g.payload_length left) refl refl e in
      (bs, split ∙ ap (◌++◌ bs) split', size, same, subst (λ k. IsFrame sv m k payload) same frame)
  header_sound m src eof f e = absurd (cc e)
  header_sound m src unexpected_eof f e = absurd (cc e)

  -- What is received was in the input as a header and payload that belong together, with what is
  -- left behind them.
  pub receive_sound :
      (max_size : ℕ) (src : List ℕ) {h : ProtocolHeader} {payload rest : List ℕ}
      → receive sv max_size src ≡ (ok (h, payload), rest)
      → (bs : List ℕ) × (src ≡ bs ++ (payload ++ rest))
        × (length bs ≡ 16)
        × (parse_header bs ≡ h)
        × IsFrame sv max_size h payload
  unfolding receive
  receive_sound m src e = header_sound m src (read_full 16 src) refl e
