-- ===== src/Graph/Copies.antt =====
-- What an acquired frame holds.
use podbay_camera_firmware.Prelude.{
  ℕ, zero, suc, ◌+◌, ◌*◌, ◌≤◌, ◌<◌, ◌≡◌, refl, ◌∙◌, ap, List, [], ◌∷◌, length, take, ltb, false,
  arith, Result, ok, err,
}
use podbay_camera_firmware.Device.{M, continue}
use podbay_camera_firmware.Raw10.{RawFrame, slice}
use podbay_camera_firmware.Raw10.Chunks.{chunks, collect-chunks, length-chunks, slice-chunks}
use podbay_camera_firmware.Raw10.Cells.{HasFrame}
use podbay_camera_firmware.Graph.{Mi, Graph, mi}
use podbay_camera_firmware.Graph.Frames.{
  Metadata, packed_stride, validate_metadata, is_bad_frame, read_memory, flush, copy_frame,
}

-- A buffer holds a frame of the kind that the graph is set up for.
pub record Fits (g : Graph) (m : Metadata) : Type 0 where
  pub same_format : m.pixel ≡ g.graph_format
  pub uncompressed : m.compression ≡ 0
  pub same_width : m.frame_width ≡ g.graph_width
  pub same_height : m.frame_height ≡ g.graph_height
  pub long_rows : packed_stride g ≤ m.source_stride

-- The rows of a frame are those of the buffer in memory, without what pads them.
pub record IsCopy (g : Graph) (m : Metadata) (memory : ℕ → ℕ) (frame : RawFrame) : Type 0 where
  pub has_frame : HasFrame frame.bytes frame.stride g.graph_width g.graph_height
  pub is_packed : frame.stride ≡ packed_stride g
  pub rows :
      (j : ℕ)
      → j < g.graph_height
      → slice frame.bytes (j * frame.stride) frame.stride
        ≡ ok (read_memory memory (m.address + j * m.source_stride) (packed_stride g))

pub length-read_memory :
    (memory : ℕ → ℕ) (address n : ℕ) → length (read_memory memory address n) ≡ n
length-read_memory memory address zero = refl
length-read_memory memory address (suc n) = ap suc (length-read_memory memory (suc address) n)

take_whole : (xs : List ℕ) (n : ℕ) → length xs ≡ n → take n xs ≡ xs
take_whole [] zero h = refl
take_whole [] (suc n) h = absurd (omega arith)
take_whole (x ∷ xs) zero h = absurd (omega arith)
take_whole (x ∷ xs) (suc n) h = ap (λ r. x ∷ r) (take_whole xs n (omega arith))

slice_whole : (xs : List ℕ) (n : ℕ) → length xs ≡ n → slice xs 0 n ≡ ok xs
unfolding slice
slice_whole xs n h =
    let inside : ltb (length xs) (0 + n) ≡ false = ground arith in rw (inside, take_whole xs n h)

validate_metadata-Fits :
    (g : Graph) (m : Metadata) → validate_metadata g m (is_bad_frame g m) ≡ ok tt → Fits g m
unfolding validate_metadata is_bad_frame
validate_metadata-Fits g m h = ground arith

-- The copy of a buffer in memory.
abbrev pub row_at : Graph → Metadata → (ℕ → ℕ) → ℕ → List ℕ
row_at g m memory row = read_memory memory (m.address + row * m.source_stride) (packed_stride g)

pub chunks-IsCopy :
    (g : Graph) (m : Metadata) (memory : ℕ → ℕ) (timestamp : ℕ)
    → IsCopy g m memory (record {
      bytes = chunks g.graph_height 0 (row_at g m memory);
      stride = packed_stride g;
      timestamp_ns = timestamp;
    })
chunks-IsCopy g m memory timestamp =
    let size = λ (k : ℕ) (p : 0 ≤ k) (q : k < 0 + g.graph_height).
      length-read_memory memory (m.address + k * m.source_stride) (packed_stride g) in
    let total = length-chunks (packed_stride g) (row_at g m memory) g.graph_height 0 size in
    record {
      has_frame = record { rows = omega (arith, total); columns = omega arith };
      is_packed = refl;
      rows = λ j h.
          let start : j * packed_stride g ≡ j * packed_stride g + 0 = omega arith in
          let here : 0 + j ≡ j = omega arith in
          rw start (
            slice-chunks (packed_stride g) (row_at g m memory) g.graph_height 0 j 0
              (packed_stride g) size h (omega arith)
            ∙ rw here
                (slice_whole (row_at g m memory j) (packed_stride g) (length-read_memory _ _ _)));
    }

module _ (sdk : Mi) where
  -- The memory once the buffer's part of the cache is dropped.
  abbrev pub flushed : Metadata → sdk.State → ℕ → ℕ
  flushed m s = sdk.memory (sdk.flush_cache m.address m.buffer_size s).1

  passed :
      {S A : Type 0} (r : Result (Unit {0})) (k : M S A) (s : S) (a : A)
      → (continue (λ _. k) (r, s)).0 ≡ ok a
      → (r ≡ ok tt) × (continue (λ _. k) (r, s) ≡ k s)
  passed (ok _) k s a done = (refl, refl)
  passed (err e) k s a done = cc

  pub copy_frame_lem :
      (g : Graph) (m : Metadata) (s : sdk.State) (bytes : List ℕ)
      → (copy_frame sdk g m s).0 ≡ ok bytes
      → Fits g m × (bytes ≡ chunks g.graph_height 0 (row_at g m (flushed m s)))
  unfolding copy_frame flush
  copy_frame_lem g m s bytes done =
      let (valid, first) = passed (validate_metadata g m (is_bad_frame g m)) _ s bytes done in
      let done' = rw first at done in
      let (clean, second) =
        passed (mi (sdk.flush_cache m.address m.buffer_size s).0) _
          (sdk.flush_cache m.address m.buffer_size s).1 bytes done' in
      let copied = collect-chunks g.graph_height 0 _ (row_at g m (flushed m s)) (λ k p q. refl) in
      let last = rw (second, copied) at done' in (validate_metadata-Fits g m valid, cc)
