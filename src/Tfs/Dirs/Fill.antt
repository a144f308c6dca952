-- ===== src/Tfs/Dirs/Fill.antt =====
-- fs/tfs/dir.c, `tfs_add_entry`: the bytes of the entry that it fills.
use thunix.Base.{
  ℕ, ◌+◌, ◌-◌, ◌^◌, ◌≤◌, ◌<◌, ◌≡◌, refl, sym, ap, ◌∙◌, ◌⊎◌, inl, inr, List, arith, ltb,
  if◌then◌else◌, Bool-cases, length, Memory, load32, store32, load32-store32, store32_ne,
}
use thunix.Strings.{memset}
use thunix.Strings.Blocks.{memset_lem, within}
use thunix.Strings.Scan.{CStr, CStr-moved, CStr-end}
use thunix.Tfs.{Block}
use thunix.Tfs.Dirs.Overlay.{load32-same}
use thunix.Tfs.Files.{save_bytes}
use thunix.Tfs.Dirs.{dir_entry_size, d_name, tfs_name_len}
use thunix.Tfs.Dirs.Add.{fill_entry}

-- the entry of inode `inode_nr` with the name `xs` at `de`, in a block that else is `buffer`
pub record HasEntry (buffer filled : Block) (de inode_nr : ℕ) (xs : List ℕ) : Type 0 where
  pub number : load32 filled de ≡ inode_nr
  pub named : CStr filled (de + d_name) xs
  pub others : (x : ℕ) → (x < de) ⊎ (de + dir_entry_size ≤ x) → filled x ≡ buffer x

-- the bytes of `fill_entry`, one by one
fill_entry-byte :
    (m : Memory) (name : ℕ) (buffer : Block) (de inode_nr len x : ℕ)
    → fill_entry m name buffer de inode_nr len x ≡ (
        if within (de + d_name) len x
        then m (name + (x - (de + d_name)))
        else store32 (memset buffer de 0 dir_entry_size) de inode_nr x)
unfolding fill_entry save_bytes
fill_entry-byte m name buffer de inode_nr len x = refl

-- the bytes behind the number that the name does not take
fill_entry-rest :
    (m : Memory) (name : ℕ) (buffer : Block) (de inode_nr len x : ℕ)
    → (x < de) ⊎ (de + d_name + len ≤ x)
    → fill_entry m name buffer de inode_nr len x
      ≡ (if within de dir_entry_size x then 0 else buffer x)
fill_entry-rest m name buffer de inode_nr len x out =
    fill_entry-byte m name buffer de inode_nr len x
    ∙ ground (
      arith,
      out,
      store32_ne (memset buffer de 0 dir_entry_size) de inode_nr x,
      memset_lem dir_entry_size buffer de 0 x,
    )

pub fill_entry-HasEntry :
    (m : Memory) (name : ℕ) (buffer : Block) (de inode_nr : ℕ) (xs : List ℕ)
    → CStr m name xs
    → length xs < tfs_name_len
    → inode_nr < 2 ^ 32
    → HasEntry buffer (fill_entry m name buffer de inode_nr (length xs)) de inode_nr xs
fill_entry-HasEntry m name buffer de inode_nr xs c short word = record {
  number =
      load32-same (store32 (memset buffer de 0 dir_entry_size) de inode_nr) filled de de (λ i low.
        fill_entry-byte m name buffer de inode_nr (length xs) (de + i) ∙ ground (arith, low))
      ∙ load32-store32 (memset buffer de 0 dir_entry_size) de inode_nr word;
  named = CStr-moved m filled name (de + d_name) xs byte c;
  others = λ x out.
      fill_entry-rest m name buffer de inode_nr (length xs) x (omega (arith, out, short))
      ∙ ground (arith, out);
}
  where
    filled : Block
    filled = fill_entry m name buffer de inode_nr (length xs)

    byte : (i : ℕ) → i ≤ length xs → filled (de + d_name + i) ≡ m (name + i)
    byte i low = elim (Bool-cases (ltb i (length xs))) [
      | inl inner ↦
          fill_entry-byte m name buffer de inode_nr (length xs) (de + d_name + i)
          ∙ ground (arith, inner)
      | inr outer ↦
          let e : i ≡ length xs = ground (arith, outer, low) in
          fill_entry-rest m name buffer de inode_nr (length xs) (de + d_name + i) (omega (arith, e))
          ∙ ground (arith, short, e)
          ∙ sym (CStr-end m name xs c)
          ∙ ap (λ j. m (name + j)) (sym e)
    ]
