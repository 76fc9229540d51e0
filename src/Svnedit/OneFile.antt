-- ===== src/Svnedit/OneFile.antt =====
-- A system with one file, and a digest that is the first bytes: they keep the laws.
use mrksvnup.Base.{
  ℕ, zero, suc, ◌+◌, ◌<◌, ◌≡◌, refl, ap, ◌∙◌, sym, true, List, [], ◌∷◌, ◌++◌, Bytes, none, some, ℤ,
  pos, negsuc, length, take, drop, length-append, length-take, take-length-append,
  drop-length-append, arith,
}
use mathlib.Core.List.{append_assoc}
use mrksvnup.Svnedit.System.{Md5, System}
use mrksvnup.Svnedit.FileStore.{IsFileStore, IsMd5}

-- The bytes of the file, the position, and what the cache has been given.
pub record World : Type 0 where
  pub data_bytes : Bytes
  pub at_pos : ℕ
  pub cached : List Bytes

abbrev zeros : Bytes
zeros = 0 ∷ 0 ∷ 0 ∷ 0 ∷ 0 ∷ 0 ∷ 0 ∷ 0 ∷ 0 ∷ 0 ∷ 0 ∷ 0 ∷ 0 ∷ 0 ∷ 0 ∷ 0 ∷ []

abbrev pub first_bytes : Bytes → Bytes
first_bytes b = take 16 (b ++ zeros)

abbrev pub prefix_md5 : Md5
prefix_md5 = record {
  Context = Bytes;
  init = some [];
  update = λ b m. some (m ++ b);
  final = λ m. some (first_bytes m);
}

pub prefix_md5-IsMd5 : IsMd5 prefix_md5 first_bytes (λ m b. m ≡ b)
prefix_md5-IsMd5 = record {
  init_lem = ([], refl, refl);
  update_lem = λ s b b' e. (s ++ b', refl, ap (λ m. m ++ b') e);
  final_lem = λ s b e. ap (λ m. some (first_bytes m)) e;
  digest-length = λ b. omega (arith, length-take 16 (b ++ zeros), length-append b zeros);
}

-- No other call changes the world; a directory that is made is not there before.
abbrev pub one_file : System
one_file = record {
  W = World;
  lstat = λ path w. none;
  stat = λ path w. none;
  mkdir = λ path mode w. (true, record w { cached = path ∷ w.cached });
  unlink = λ path w. (true, w);
  rmdir = λ path w. (true, w);
  symlink = λ target path w. (true, w);
  open_path = λ path creation mode w. (pos 3, record w { at_pos = 0 });
  close = λ fd w. w;
  rewind = λ fd w. (true, record w { at_pos = 0 });
  read = λ fd n w. (
    some (take n (drop w.at_pos w.data_bytes)),
    record w { at_pos = w.at_pos + length (take n (drop w.at_pos w.data_bytes)) },
  );
  write = λ fd s w. (
    true,
    record w {
      data_bytes =
          (take w.at_pos w.data_bytes ++ s) ++ drop (length s) (drop w.at_pos w.data_bytes);
      at_pos = w.at_pos + length s;
    },
  );
  ftruncate = λ fd n w. (true, record w { data_bytes = take n w.data_bytes });
  fchmod = λ fd mode w. (true, w);
  pread = λ w fd offset n. elim offset [
    | pos off ↦ some (take n (drop off w.data_bytes))
    | negsuc k ↦ none
  ];
  readlink = λ path w. none;
  path_join = λ root path. path;
  traverse_dir = λ path callback w. some (0, w);
  get_file = λ path rev w. none;
  new_shadow = λ w. (true, w);
  connect_shadow = λ w. (true, w);
  close_shadow = λ w. w;
  put = λ path checksum w. (true, record w { cached = checksum ∷ w.cached });
  del = λ path w. (true, w);
  md5 = prefix_md5;
  fresh = 0;
  fini_wnds = λ ws. [];
  fini_chars = λ cs. [];
  fuel = 100;
}

abbrev pub Holds : World → ℤ → Bytes → ℕ → Type 0
Holds w fd data_bytes at_pos = (w.data_bytes ≡ data_bytes) × (w.at_pos ≡ at_pos)

module _ {ℓ} {A : Type ℓ} where
  take-drop : (n : ℕ) (xs : List A) → take n xs ++ drop n xs ≡ xs
  take-drop zero xs = refl
  take-drop (suc n) [] = refl
  take-drop (suc n) (x ∷ xs) = ap (λ l. x ∷ l) (take-drop n xs)

  take-nil : (n : ℕ) (xs : List A) → 0 < n → take n xs ≡ [] → xs ≡ []
  take-nil n [] some_n e = refl
  take-nil zero (x ∷ xs) some_n e = absurd (omega arith)
  take-nil (suc n) (x ∷ xs) some_n e = cc

-- What stands before the position, and from there on.
taken-Holds :
    (w : World) (fd : ℤ) (before after : Bytes)
    → Holds w fd (before ++ after) (length before)
    → take w.at_pos w.data_bytes ≡ before
taken-Holds w fd before after h =
    ap (λ n. take n w.data_bytes) h.1
    ∙ ap (take (length before)) h.0
    ∙ take-length-append before after

dropped-Holds :
    (w : World) (fd : ℤ) (before after : Bytes)
    → Holds w fd (before ++ after) (length before)
    → drop w.at_pos w.data_bytes ≡ after
dropped-Holds w fd before after h =
    ap (λ n. drop n w.data_bytes) h.1
    ∙ ap (drop (length before)) h.0
    ∙ drop-length-append before after

one_file-write :
    (w : World) (fd : ℤ) (before s after : Bytes)
    → Holds w fd (before ++ after) (length before)
    → (w' : World) × (one_file.write fd s w ≡ (true, w'))
      × Holds w' fd ((before ++ s) ++ drop (length s) after) (length before + length s)
one_file-write w fd before s after h =
    let front = taken-Holds w fd before after h in
    let back = dropped-Holds w fd before after h in
    (
      (one_file.write fd s w).1,
      refl,
      (
        ap (λ b. (b ++ s) ++ drop (length s) (drop w.at_pos w.data_bytes)) front
            ∙ ap (λ b. (before ++ s) ++ drop (length s) b) back,
        ap (λ n. n + length s) h.1,
      ),
    )

one_file-read :
    (w : World) (fd : ℤ) (n : ℕ) (before after : Bytes)
    → 0 < n
    → Holds w fd (before ++ after) (length before)
    → (got : Bytes) × (rest : Bytes) × (w' : World) × (after ≡ got ++ rest)
      × (got ≡ [] → after ≡ [])
      × (one_file.read fd n w ≡ (some got, w'))
      × Holds w' fd ((before ++ got) ++ rest) (length before + length got)
one_file-read w fd n before after some_n h =
    let left = drop w.at_pos w.data_bytes in
    let back = dropped-Holds w fd before after h in
    let cut : after ≡ take n left ++ drop n left = sym back ∙ sym (take-drop n left) in
    (
      take n left,
      drop n left,
      (one_file.read fd n w).1,
      cut,
      (λ e. sym back ∙ take-nil n left some_n e),
      refl,
      (
        h.0 ∙ ap (λ b. before ++ b) cut ∙ sym (append_assoc before (take n left) (drop n left)),
        ap (λ k. k + length (take n left)) h.1,
      ),
    )

pub one_file-IsFileStore : IsFileStore one_file Holds
one_file-IsFileStore = record {
  rewind_lem = λ w fd b p h. (record w { at_pos = 0 }, refl, (h.0, refl));
  write_lem = one_file-write;
  ftruncate_lem = λ w fd before after p h. (
    (one_file.ftruncate fd (length before) w).1,
    refl,
    (ap (take (length before)) h.0 ∙ take-length-append before after, h.1),
  );
  fchmod_lem = λ w fd mode b p h. (w, refl, h);
  read_lem = one_file-read;
  pread_lem = λ w fd b p off len h inside. ap (λ b. some (take len (drop off b))) h.0;
}
