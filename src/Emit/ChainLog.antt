-- ===== src/Emit/ChainLog.antt =====
-- What the reader finds of a chain that `emitChained` (include/sub0log/detail/emit.hpp) has written.
use sub0log.Common.{
  ℕ, ◌+◌, ◌-◌, ◌%◌, ◌^◌, ◌≤◌, ◌<◌, ◌≡◌, sym, ap, ◌∙◌, arith, Bool, true, false, List, [], ◌∷◌, ◌++◌,
  map, length, length-append, length-replicate, append_assoc, All,
}
use sub0log.Common.Bytes.{Bytes}
use sub0log.Chunk.{ChunkWriter}
use sub0log.Chunk.Layout.{Holds, after_reserve, record_image, length-record_image}
use sub0log.Chunk.Reserved.{zeros, footprint, Holds-reserved}
use sub0log.Reader.Body.Written.{Entry, images}
use sub0log.Protocol.{RequestFits, entry_of, numbered}
use sub0log.Logger.Log.{Filled, records_of, records_of-Filled, request_of_entry}
use sub0log.Emit.{truncated_flag}
use sub0log.Emit.Chain.{Slice}
use sub0log.Emit.Publish.{write_chain}
use sub0log.Emit.Layout.{chain_size, Short, Holds-slices, slice_requests}
use sub0log.Emit.Chained.{
  chain_at, after_chain, chain_body, message_request, chain_requests, requests-numbered,
  requests-append, images-append, numbered-EntryFits, Sound, slice_requests-Sound, All-append,
  after_slices-numbers, slice_requests-size,
}

chain_requests-Sound :
    (site_id : ℕ) (cut : Bool) (cs : List Slice) (payload : Bytes)
    → length payload < 2 ^ 16
    → All Short cs
    → All Sound (chain_requests site_id (truncated_flag cut) cs payload)
chain_requests-Sound site_id cut cs payload small short =
    ((message_fits cut cs, small), slice_requests-Sound site_id cs short)
  where
    message_fits :
        (cut : Bool) (cs : List Slice)
        → RequestFits (message_request (truncated_flag cut) cs payload)
    message_fits true [] = record { kind_fits = omega arith; flags_fit = omega arith }
    message_fits true (c ∷ cs) = record { kind_fits = omega arith; flags_fit = omega arith }
    message_fits false [] = record { kind_fits = omega arith; flags_fit = omega arith }
    message_fits false (c ∷ cs) = record { kind_fits = omega arith; flags_fit = omega arith }

module _ (site_id n : ℕ) (cut : Bool) (cs : List Slice) (payload : Bytes) (w : ChunkWriter)
    (es : List Entry) (f : Filled w es) (len : length payload ≡ n) (small : n < 2 ^ 16)
    (short : All Short cs) (fits : footprint n + chain_size cs ≤ f.free) where
  abbrev pub chain_writer : ChunkWriter
  chain_writer =
      write_chain site_id n (truncated_flag cut) payload (chain_at w n cs) (after_chain w n cs)

  abbrev pub chain_entries : List Entry
  chain_entries = numbered w.sequence (chain_requests site_id (truncated_flag cut) cs payload)

  abbrev chain_left : ℕ
  chain_left = f.free - footprint n - chain_size cs

  reserved :
      Holds
        (after_chain w n cs)
        ((images es ++ zeros (footprint n)) ++ zeros (chain_size cs))
        chain_left
  reserved =
      Holds-slices cs (Holds-reserved n f.holds small (omega (arith, fits))) short
        (omega (arith, fits))

  written : chain_writer ≡ record (after_chain w n cs) {
    body = images es ++ (images chain_entries ++ zeros chain_left);
  }
  written =
      chain_body site_id n (truncated_flag cut) cs payload (images es) (zeros chain_left) w
        (after_chain w n cs) len small short f.holds.cursor
        (reserved.split
          ∙ append_assoc (images es ++ zeros (footprint n)) (zeros (chain_size cs))
              (zeros chain_left)
          ∙ append_assoc (images es) (zeros (footprint n))
              (zeros (chain_size cs) ++ zeros chain_left))

  chain_entries-size : length (images chain_entries) ≡ footprint n + chain_size cs
  chain_entries-size =
      let head = (entry_of w.sequence (message_request (truncated_flag cut) cs payload)).head in
      length-append (record_image head payload)
        (images (numbered ((w.sequence + 1) % 2 ^ 16) (slice_requests site_id cs)))
      ∙ omega (
        arith,
        length-record_image head payload (omega (arith, len)) ∙ ap footprint len,
        slice_requests-size cs site_id ((w.sequence + 1) % 2 ^ 16) short,
      )

  -- The sizes of what was reserved and what was written agree.
  same_size :
      length ((images es ++ zeros (footprint n)) ++ zeros (chain_size cs))
      ≡ length (images (es ++ chain_entries))
  same_size = omega (
    arith,
    length-append (images es ++ zeros (footprint n)) (zeros (chain_size cs)),
    length-append (images es) (zeros (footprint n)),
    length-replicate {A = ℕ} (footprint n) 0,
    length-replicate {A = ℕ} (chain_size cs) 0,
    ap length (images-append es chain_entries),
    length-append (images es) (images chain_entries),
    chain_entries-size,
  )

  pub Filled-chain : Filled chain_writer (es ++ chain_entries)
  Filled-chain = rw written (record {
    free = chain_left;
    holds = record {
      split =
          sym (append_assoc (images es) (images chain_entries) (zeros chain_left))
          ∙ ap (λ t. t ++ zeros chain_left) (sym (images-append es chain_entries));
      cursor = reserved.cursor ∙ same_size;
      aligned = omega (arith, reserved.aligned, same_size);
      free_aligned = reserved.free_aligned;
      small = omega (arith, reserved.small, same_size);
    };
    fit = All-append es chain_entries f.fit (
        numbered-EntryFits (chain_requests site_id (truncated_flag cut) cs payload) w.sequence
          f.numbered (chain_requests-Sound site_id cut cs payload (omega (arith, len)) short));
    numbered = after_slices-numbers cs (after_reserve w n) (omega arith);
  })

  -- The reader finds the message, with its flags, and then the continuations, in order.
  pub records_of-chain :
      records_of chain_writer
      ≡ records_of w ++ chain_requests site_id (truncated_flag cut) cs payload
  records_of-chain =
      records_of-Filled Filled-chain
      ∙ requests-append es chain_entries
      ∙ ap (λ t. map request_of_entry es ++ t)
          (requests-numbered (chain_requests site_id (truncated_flag cut) cs payload) w.sequence)
      ∙ ap (λ t. t ++ chain_requests site_id (truncated_flag cut) cs payload)
          (sym (records_of-Filled f))
