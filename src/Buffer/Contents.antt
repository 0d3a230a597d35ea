-- ===== src/Buffer/Contents.antt =====
-- Buffer.h: a buffer seen as the queue of its readable bytes.
use head_write_muduo_epoll_c.Base.{
  ℕ, ◌-◌, ◌+◌, ◌≤◌, ◌<◌, ◌≡◌, refl, sym, ap, ◌∙◌, append-nil, length, take, drop, replicate, ◌++◌,
  add_size, length-take, length-drop, List, [], arith, max_size, take-all, drop-all,
  take-append_left, drop-append_left, take-append_right, drop-append_right, drop-drop, drop-take,
  take-take, take-append-drop,
}
use head_write_muduo_epoll_c.Buffer.{
  Buffer, cheap_prepend, new_buffer, readable_bytes, writable_bytes, peek, retrive,
  retrive_as_string, retrive_all_string, resize, copy_to, make_space, ensure_writable_bytes, append,
}
use head_write_muduo_epoll_c.Buffer.Bounds.{
  IsValid, readable_bytes_lem, length-slice, ensure_writable_bytes-IsValid,
  ensure_writable_bytes-room,
}

-- The bytes between the two indices, oldest first.
abbrev pub contents : Buffer → List ℕ
contents b = take (b.writer_index - b.reader_index) (drop b.reader_index b.buffer)

pub length-contents : {b : Buffer} → IsValid b → length (contents b) ≡ readable_bytes b
length-contents {b} v =
    omega (arith, readable_bytes_lem v, length-slice b.reader_index b.writer_index b.buffer)

-- What `copy_to` puts at an index is what is then found there.
copy_to-slice :
    (i : ℕ) (src xs : List ℕ) → i ≤ length xs → take (length src) (drop i (copy_to i src xs)) ≡ src
unfolding copy_to
copy_to-slice i src xs h =
    ap (take (length src)) (
      drop-append_right (take i xs) (src ++ drop (i + length src) xs) i 0
        (omega (arith, length-take i xs)))
    ∙ take-append_left (length src) src (drop (i + length src) xs) (omega arith)
    ∙ take-all (length src) src (omega arith)

-- A slice that ends where `copy_to` begins goes on with the copied bytes.
pub copy_to-extends :
    (r w : ℕ) (src xs : List ℕ)
    → r ≤ w
    → w ≤ length xs
    → take (w + length src - r) (drop r (copy_to w src xs)) ≡ take (w - r) (drop r xs) ++ src
unfolding copy_to
copy_to-extends r w src xs h k =
    ap (take (w + length src - r)) (
      drop-append_left r (take w xs) (src ++ drop (w + length src) xs)
        (omega (arith, length-take w xs)))
    ∙ take-append_right (drop r (take w xs)) (src ++ drop (w + length src) xs) (w + length src - r)
        (length src) (omega (arith, length-drop r (take w xs), length-take w xs))
    ∙ ap (◌++◌ (drop r (take w xs))) (
        take-append_left (length src) src (drop (w + length src) xs) (omega arith)
        ∙ take-all (length src) src (omega arith))
    ∙ ap (λ ys. ys ++ src) (drop-take r w xs)

-- Growing a vector leaves the bytes below its old end.
resize-slice :
    (r w n : ℕ) (xs : List ℕ)
    → r ≤ w
    → w ≤ length xs
    → length xs ≤ n
    → take (w - r) (drop r (resize xs n)) ≡ take (w - r) (drop r xs)
unfolding resize
resize-slice r w n xs h k l =
    ap (λ ys. take (w - r) (drop r (ys ++ replicate (n - length xs) 0))) (take-all n xs l)
    ∙ ap (take (w - r)) (drop-append_left r xs (replicate (n - length xs) 0) (omega arith))
    ∙ take-append_left (w - r) (drop r xs) (replicate (n - length xs) 0)
        (omega (arith, length-drop r xs))

-- The constructor gives an empty buffer.
pub contents-new_buffer : (n : ℕ) → contents (new_buffer n) ≡ []
unfolding new_buffer
contents-new_buffer n = refl

slice-drop :
    (r w n : ℕ) (xs : List ℕ)
    → take (w - (r + n)) (drop (r + n) xs) ≡ drop n (take (w - r) (drop r xs))
slice-drop r w n xs =
    ap (λ k. take k (drop (r + n) xs)) (omega arith)
    ∙ ap (take (w - r - n)) (sym (drop-drop n r xs))
    ∙ sym (drop-take n (w - r) (drop r xs))

-- On a valid buffer `retrive` drops the oldest bytes: the given number of them, or all there are.
pub contents-retrive :
    {b : Buffer} (n : ℕ) → IsValid b → contents (retrive b n) ≡ drop n (contents b)
unfolding retrive
contents-retrive {b} n v = ground (
  arith,
  slice-drop b.reader_index b.writer_index n b.buffer,
  drop-all n (contents b),
  length-slice b.reader_index b.writer_index b.buffer,
)

module _ {b : Buffer} (len : ℕ) (v : IsValid b) (fits : b.writer_index + len < max_size) where
  pub contents-make_space : writable_bytes b < len → contents (make_space b len) ≡ contents b
  unfolding make_space
  contents-make_space short = ground (
    arith,
    resize-slice b.reader_index b.writer_index (add_size b.writer_index len) b.buffer,
    copy_to-slice cheap_prepend (contents b) b.buffer,
    length-slice b.reader_index b.writer_index b.buffer,
  )

  -- Making room changes no readable byte, and there is room afterwards.
  pub contents-ensure_writable_bytes : contents (ensure_writable_bytes b len) ≡ contents b
  unfolding ensure_writable_bytes
  contents-ensure_writable_bytes = ground (arith, contents-make_space)

-- On a valid buffer, and while the write index and the new bytes stay below the largest vector,
-- `append` puts its bytes behind the readable ones and changes none of those.
pub contents-append :
    {b : Buffer} (bytes : List ℕ)
    → IsValid b
    → b.writer_index + length bytes < max_size
    → contents (append b bytes) ≡ contents b ++ bytes
unfolding append
contents-append {b} bytes v fits =
    let room = ensure_writable_bytes b (length bytes) in
    let ok = ensure_writable_bytes-IsValid {b = b} (length bytes) v fits in
    let w = room.writer_index in
    ap (λ k. take (k - room.reader_index) (drop room.reader_index (copy_to w bytes room.buffer)))
      (omega (arith, ok, ensure_writable_bytes-room {b = b} (length bytes) v fits))
    ∙ copy_to-extends room.reader_index w bytes room.buffer ok.ordered ok.inside
    ∙ ap (λ ys. ys ++ bytes) (contents-ensure_writable_bytes (length bytes) v fits)

-- On a valid buffer, and up to the readable length, `retriveAsString` returns the oldest bytes and leaves the others.
pub retrive_as_string_splits :
    {b : Buffer} (n : ℕ)
    → IsValid b
    → n ≤ readable_bytes b
    → let (string, rest) = retrive_as_string b n in
      (string ++ contents rest ≡ contents b) × (length string ≡ n)
unfolding retrive_as_string peek
retrive_as_string_splits {b} n v h = (
  ap (λ ys. ys ++ contents (retrive b n))
        (sym (
          take-take n (b.writer_index - b.reader_index) (drop b.reader_index b.buffer)
            (omega (arith, readable_bytes_lem v))))
      ∙ ap (◌++◌ (take n (contents b))) (contents-retrive n v)
      ∙ take-append-drop n (contents b),
  omega (arith, readable_bytes_lem v, length-take n (peek b), length-drop b.reader_index b.buffer),
)

-- On a valid buffer `retriveAllString` hands over everything readable and leaves an empty buffer.
pub retrive_all_string_empties :
    {b : Buffer}
    → IsValid b
    → let (string, rest) = retrive_all_string b in (string ≡ contents b) × (contents rest ≡ [])
unfolding retrive_all_string retrive_as_string
retrive_all_string_empties {b} v =
    let (splits, _) = retrive_as_string_splits (readable_bytes b) v (omega arith) in
    let left =
      contents-retrive (readable_bytes b) v
      ∙ drop-all (readable_bytes b) (contents b) (omega (arith, length-contents v)) in
    (
      sym (append-nil _) ∙ ap (◌++◌ (retrive_as_string b (readable_bytes b)).0) (sym left) ∙ splits,
      left,
    )
