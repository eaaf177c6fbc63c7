-- ===== src/Definitions/RoundTrip.antt =====
-- Definition records are parsed as they were written.
use sub0log.Common.{
  ℕ, ◌+◌, ◌-◌, ◌%◌, ◌^◌, ◌≤◌, ◌<◌, ◌≡◌, refl, sym, ap, ◌∙◌, arith, false, some, List, [], ◌++◌,
  append_assoc, append-nil, length, length-append, length-take, take, ltb,
}
use sub0log.Common.Bytes.{Bytes, le_bytes, load, load-le_bytes, view, view-append}
use sub0log.Wire.Layout.{SiteDefinitionPayload, site_definition_image, load_site_definition}
use sub0log.Wire.Layout.RoundTrip.{load_site_definition-image}
use sub0log.Definitions.{
  DecodedSite, Site, counted_string, parse_file, parse_site_definition, definition_payload_bytes,
  site_definition_bytes,
}

counted_string-at :
    (payload bs : Bytes) (offset n : ℕ)
    → load 2 payload offset ≡ n
    → view payload (offset + 2) n ≡ bs
    → offset + 2 + n ≤ length payload
    → counted_string payload offset ≡ some (bs, offset + 2 + n)
unfolding counted_string
counted_string-at payload bs offset n loaded seen room =
    let head : ltb (length payload - offset) 2 ≡ false = ground arith in
    let body : ltb (length payload - (offset + 2)) n ≡ false = ground arith in
    rw (head, loaded, body, seen) refl

-- A string behind its length, anywhere in a payload.
counted_string-append :
    (front bs rest : Bytes) (n offset : ℕ)
    → offset ≡ length front
    → n ≡ length bs
    → n < 2 ^ 16
    → counted_string (front ++ (le_bytes 2 n ++ (bs ++ rest))) offset ≡ some (bs, offset + 2 + n)
counted_string-append front bs rest n offset e k h =
    let payload = front ++ (le_bytes 2 n ++ (bs ++ rest)) in
    counted_string-at payload bs offset n
      (load-le_bytes 2 n front (bs ++ rest) offset e (omega arith))
      (ap (λ t. view t (offset + 2) n) (sym (append_assoc front (le_bytes 2 n) (bs ++ rest)))
        ∙ view-append n (front ++ le_bytes 2 n) bs rest (offset + 2)
            (omega (arith, length-append front (le_bytes 2 n))) k)
      (omega (arith, length-append front (le_bytes 2 n ++ (bs ++ rest)), length-append bs rest))

-- The fields that a parsed definition takes from the prefix.
abbrev pub decoded_site : SiteDefinitionPayload → List ℕ → Bytes → Bytes → DecodedSite
decoded_site prefix types format file = record {
  site_id = prefix.site_id;
  subsystem = prefix.subsystem_id;
  severity = prefix.severity;
  line = prefix.line;
  format = format;
  file = file;
  arg_types = types;
}

parse_file-at :
    (payload : Bytes) (prefix : SiteDefinitionPayload) (types format file : Bytes) (o2 o3 : ℕ)
    → counted_string payload o2 ≡ some (file, o3)
    → parse_file payload prefix types (some (format, o2))
      ≡ some (decoded_site prefix types format file)
unfolding parse_file
parse_file-at payload prefix types format file o2 o3 second = rw (second, parse_file) refl

parse_site_definition-at :
    (payload : Bytes) (prefix : SiteDefinitionPayload) (types format file : Bytes) (o2 o3 : ℕ)
    → load_site_definition payload ≡ prefix
    → view payload 24 prefix.arg_count ≡ types
    → 24 + prefix.arg_count ≤ length payload
    → counted_string payload (24 + prefix.arg_count) ≡ some (format, o2)
    → counted_string payload o2 ≡ some (file, o3)
    → parse_site_definition payload ≡ some (decoded_site prefix types format file)
unfolding parse_site_definition
parse_site_definition-at payload prefix types format file o2 o3 loaded seen room first second =
    let whole : ltb (length payload) 24 ≡ false = ground arith in
    let codes : ltb (length payload - 24) prefix.arg_count ≡ false = ground arith in
    rw (whole, loaded, codes, seen, first)
      (parse_file-at payload prefix types format file o2 o3 second)

-- The fields of a site fit their types.
pub record SiteFits (s : Site) : Type 0 where
  pub id_fits : s.site_id < 2 ^ 64
  pub subsystem_fits : s.subsystem < 2 ^ 32
  pub line_fits : s.line < 2 ^ 32
  pub severity_fits : s.severity < 2 ^ 8
  pub count_fits : length s.type_codes < 2 ^ 8

-- What a reader is to know of a site whose strings were kept up to a length.
abbrev pub site_kept : Site → ℕ → ℕ → DecodedSite
site_kept s format_len file_len = record {
  site_id = s.site_id;
  subsystem = s.subsystem;
  severity = s.severity;
  line = s.line;
  format = take format_len s.format;
  file = take file_len s.file;
  arg_types = s.type_codes;
}

length-take-le : (n : ℕ) (bs : Bytes) → n ≤ length bs → n ≡ length (take n bs)
length-take-le n bs h = omega (arith, length-take n bs)

abbrev prefix_of : Site → SiteDefinitionPayload
prefix_of s = record {
  site_id = s.site_id;
  subsystem_id = s.subsystem;
  line = s.line;
  severity = s.severity;
  arg_count = length s.type_codes;
}

module _ (s : Site) (format_len file_len : ℕ) where
  abbrev head_part : Bytes
  head_part = site_definition_image (prefix_of s)

  abbrev file_part : Bytes
  file_part = le_bytes 2 file_len ++ (take file_len s.file ++ [])

  abbrev format_part : Bytes
  format_part = le_bytes 2 format_len ++ (take format_len s.format ++ file_part)

  length-head_part : 24 ≡ length head_part
  unfolding site_definition_image
  length-head_part = refl

  bytes-parts :
      length s.type_codes < 2 ^ 8
      → site_definition_bytes s format_len file_len ≡ head_part ++ (s.type_codes ++ format_part)
  unfolding site_definition_bytes
  bytes-parts small =
      let count : length s.type_codes % 2 ^ 8 ≡ length s.type_codes = omega arith in
      rw count (
        ap
          (λ t.
            head_part
            ++ (s.type_codes
                ++ (le_bytes 2 format_len
                    ++ (take format_len s.format ++ (le_bytes 2 file_len ++ t)))))
          (sym (append-nil (take file_len s.file))))

  -- The format and the file name of the payload.
  format-parts :
      format_len ≤ length s.format
      → format_len < 2 ^ 16
      → counted_string (head_part ++ (s.type_codes ++ format_part)) (24 + length s.type_codes)
        ≡ some (take format_len s.format, 24 + length s.type_codes + 2 + format_len)
  format-parts h k =
      ap (λ t. counted_string t (24 + length s.type_codes))
        (sym (append_assoc head_part s.type_codes format_part))
      ∙ counted_string-append (head_part ++ s.type_codes) (take format_len s.format) file_part
          format_len (24 + length s.type_codes)
          (omega (arith, length-append head_part s.type_codes, length-head_part))
          (length-take-le format_len s.format h) k

  file-parts :
      format_len ≤ length s.format
      → file_len ≤ length s.file
      → file_len < 2 ^ 16
      → counted_string
          (head_part ++ (s.type_codes ++ format_part))
          (24 + length s.type_codes + 2 + format_len)
        ≡ some (take file_len s.file, 24 + length s.type_codes + 2 + format_len + 2 + file_len)
  file-parts f h k =
      let front =
        (head_part ++ s.type_codes) ++ (le_bytes 2 format_len ++ take format_len s.format) in
      ap (λ t. counted_string t (24 + length s.type_codes + 2 + format_len))
        (sym (append_assoc head_part s.type_codes format_part)
          ∙ ap (λ t. (head_part ++ s.type_codes) ++ t)
              (sym (append_assoc (le_bytes 2 format_len) (take format_len s.format) file_part))
          ∙ sym (
              append_assoc (head_part ++ s.type_codes)
                (le_bytes 2 format_len ++ take format_len s.format) file_part))
      ∙ counted_string-append front (take file_len s.file) [] file_len
          (24 + length s.type_codes + 2 + format_len)
          (omega (
            arith,
            length-append (head_part ++ s.type_codes)
                (le_bytes 2 format_len ++ take format_len s.format),
            length-append head_part s.type_codes,
            length-head_part,
            length-take-le format_len s.format f,
          ))
          (length-take-le file_len s.file h) k

-- A site definition, its fields in range and both lengths of its strings below 2^16, is parsed
-- back as it was written, with the strings cut to the lengths that the writer decided on, and its
-- payload is exactly as long as was reserved for it.
pub parse_site_definition-bytes :
    (s : Site) (format_len file_len : ℕ)
    → SiteFits s
    → format_len ≤ length s.format
    → file_len ≤ length s.file
    → format_len < 2 ^ 16
    → file_len < 2 ^ 16
    → (parse_site_definition (site_definition_bytes s format_len file_len)
        ≡ some (site_kept s format_len file_len))
      × (length (site_definition_bytes s format_len file_len)
          ≡ definition_payload_bytes (length s.type_codes) format_len file_len)
unfolding definition_payload_bytes
parse_site_definition-bytes s format_len file_len v f g k l =
    let n = length s.type_codes in
    let head = head_part s format_len file_len in
    let more = format_part s format_len file_len in
    let payload = head ++ (s.type_codes ++ more) in
    let size : length payload ≡ 24 + (n + (2 + (format_len + (2 + file_len)))) = omega (
      arith,
      length-append head (s.type_codes ++ more),
      length-head_part s format_len file_len,
      length-append s.type_codes more,
      length-append (take format_len s.format) (file_part s format_len file_len),
      length-append (take file_len s.file) [],
      length-take format_len s.format,
      length-take file_len s.file,
    ) in
    (
      ap parse_site_definition (bytes-parts s format_len file_len v.count_fits)
          ∙ parse_site_definition-at payload (prefix_of s) s.type_codes (take format_len s.format)
              (take file_len s.file) (24 + n + 2 + format_len)
              (24 + n + 2 + format_len + 2 + file_len)
              (load_site_definition-image (prefix_of s) (s.type_codes ++ more) (record {
                site_fits = v.id_fits;
                subsystem_fits = v.subsystem_fits;
                line_fits = v.line_fits;
                severity_fits = v.severity_fits;
                count_fits = v.count_fits;
              }))
              (view-append n head s.type_codes more 24 (length-head_part s format_len file_len)
                refl)
              (omega (arith, size)) (format-parts s format_len file_len f k)
              (file-parts s format_len file_len f g l),
      ap length (bytes-parts s format_len file_len v.count_fits)
          ∙ size
          ∙ omega (arith, v.count_fits),
    )
