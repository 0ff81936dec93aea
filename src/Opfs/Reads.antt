-- ===== src/Opfs/Reads.antt =====
-- `read` of the class `Files` of opfs.ts: what SQLite reads through the VFS.
use sqlite_wasm.Prelude.{
  ℕ, ◌+◌, ◌-◌, ◌<◌, min, ◌≡◌, refl, ◌∙◌, true, false, Option, none, some, leb, if◌then◌else◌, Bytes,
  byte_at, length, get_or, fill_zero, arith, Bool-cases, inl, inr, length-fill_zero,
  byte_at-fill_zero,
}
use sqlite_wasm.Snapshots.Layers.{Reader}
use sqlite_wasm.Snapshots.LayerReads.{Reads}
use sqlite_wasm.Opfs.Files.{Files}

abbrev pub ioerr_read : ℕ
ioerr_read = 266

abbrev pub ioerr_short_read : ℕ
ioerr_short_read = 522

-- The action of `read`, on the bytes of the heap that it may write; `none` is an exception.
unfoldable pub read_result : Bytes → Option (Bytes × ℕ) → ℕ × Bytes
read_result target none = (ioerr_read, target)
read_result target (some (bytes, count)) =
    if leb (length target) count
    then (0, bytes)
    else (ioerr_short_read, fill_zero bytes count (length bytes))

-- `use`, of that action
unfoldable pub read_of : Option Reader → Bytes → ℕ → ℕ × Bytes
unfolding read_result
read_of none target offset = (ioerr_read, target)
read_of (some file) target offset = read_result target (file target offset)

-- `read`: the result code, and the bytes at the pointer after it
unfoldable pub read : ℕ → Bytes → ℕ → Files Reader → ℕ × Bytes
unfolding read_of
read id target offset s = read_of (get_or s.files id none) target offset

-- Reading a file through the VFS fills the whole buffer with the bytes of its content from the offset
-- on, and zeros past its end, for any file that reads as its content; the code is success where the
-- file reaches to the end of the buffer, and else a short read.
pub read-Reads :
    (s : Files Reader) (id : ℕ) (file : Reader) (content : ℕ → ℕ) (size : ℕ) (target : Bytes)
    (offset : ℕ)
    → get_or s.files id none ≡ some file
    → Reads file content size
    → ((read id target offset s).0
        ≡ (if leb (length target) (size - offset) then 0 else ioerr_short_read))
      × (length (read id target offset s).1 ≡ length target)
      × ((i : ℕ) → i < length target → byte_at (read id target offset s).1 i ≡ content (offset + i))
unfolding read read_of read_result
read-Reads s id file content size target offset at r =
    let (b, done, len, bytes) = r.read target offset in
    rw (at, done)
      (elim (Bool-cases (leb (length target) (size - offset))) [
        | inl all ↦
            let full : leb (length target) (min (length target) (size - offset)) ≡ true =
              ground (arith, all) in
            rw (full, all) (refl, len, λ i lt. ground (arith, bytes i, all, lt))
        | inr short ↦
            let part : leb (length target) (min (length target) (size - offset)) ≡ false =
              ground (arith, short) in
            let count = min (length target) (size - offset) in
            rw (part, short)
              (
                refl,
                length-fill_zero b count (length b) ∙ len,
                λ i lt. ground (
                  arith,
                  byte_at-fill_zero b count (length b) i,
                  bytes i,
                  len,
                  lt,
                  r.past_end (offset + i),
                ),
              )
      ])
