-- ===== src/Wire/Responses.antt =====
-- The responses of the handler of pkg/network/protocol.go, as their receiver reads them.
use portask.Prelude.{
  ℕ, ◌%◌, ◌^◌, ◌≤◌, ◌<◌, ◌≡◌, refl, none, true, List, [], ◌∷◌, ◌++◌, append_assoc, append-nil,
  arith, length,
}
use portask.Wire.Frame.{header_bytes, ok, Services, Session}
use portask.Wire.Handler.{receive, response_header, send_response, write_message}
use portask.Wire.Receive.{receive-header_bytes}

module _ {M S : Type 0} (sv : Services M S) where
  receive-response :
      (max_size kind : ℕ) (payload rest : List ℕ)
      → kind < 256
      → length payload ≤ max_size % 2 ^ 32
      → sv.checksum_ieee payload < 2 ^ 32
      → receive sv max_size (header_bytes (response_header sv kind payload) ++ (payload ++ rest))
        ≡ (ok (response_header sv kind payload, payload), rest)
  unfolding response_header
  receive-response m kind payload rest k l c =
      receive-header_bytes sv m (response_header sv kind payload) payload rest
        (record {
          magic_fits = omega arith;
          version_fits = omega arith;
          kind_fits = k;
          flags_fit = omega arith;
          length_fits = omega arith;
          checksum_fits = c;
        })
        (record {
          magic_eq = refl;
          version_eq = refl;
          length_eq = omega (arith, l);
          length_le = omega (arith, l);
          checksum_eq = refl;
        })

  send_response-writable :
      (kind : ℕ) (payload : List ℕ) (s : Session S)
      → s.writable ≡ true
      → send_response sv kind payload s ≡ (
        none,
        record s {
          output = s.output ++ (header_bytes (response_header sv kind payload) ++ payload);
        },
      )
  unfolding send_response write_message
  send_response-writable kind [] s w =
      ground (arith, append-nil (header_bytes (response_header sv kind [])))
  send_response-writable kind (b ∷ bs) s w =
      ground
        (arith, append_assoc s.output (header_bytes (response_header sv kind (b ∷ bs))) (b ∷ bs))

  -- On a connection that can be written, `sendResponse` appends one frame to the output and changes
  -- nothing else; a receiver of the same checksum reads that frame, whatever follows it, as the
  -- response's type and payload, if the payload is within its limit.
  pub send_response-receive :
      (max_size kind : ℕ) (payload : List ℕ) (s : Session S)
      → s.writable ≡ true
      → kind < 256
      → length payload ≤ max_size % 2 ^ 32
      → sv.checksum_ieee payload < 2 ^ 32
      → (frame : List ℕ) × (send_response sv kind payload s
          ≡ (none, record s { output = s.output ++ frame }))
        × ((rest : List ℕ)
            → receive sv max_size (frame ++ rest)
              ≡ (ok (response_header sv kind payload, payload), rest))
  send_response-receive m kind payload s w k l c = (
    header_bytes (response_header sv kind payload) ++ payload,
    send_response-writable kind payload s w,
    λ rest.
        rw (append_assoc (header_bytes (response_header sv kind payload)) payload rest)
          (receive-response m kind payload rest k l c),
  )
