-- ===== src/ServerState/Saved/Ops.antt =====
-- Operators and super operators: what a server that loads them again knows.
use fserv.Prelude.{
  ◌≡◌, refl, ap, ◌∙◌, Bool, true, false, ◌||◌, some, List, [], ◌∷◌, map, All, arith,
}
use fserv.Prelude.Bytes.{Bytes, IsText, codes, eq_bytes, c_str, c_str_idem}
use fserv.Prelude.Maps.{bytes_eq, same, lookup-insert, member, member-add}
use fserv.Json.{Jansson, text}
use fserv.Json.Laws.{IsJansson}
use fserv.ServerState.{ServerState}
use fserv.ServerState.Lists.{op_member, add_op, is_op}
use fserv.ServerState.Moderation.{is_op-add_op}
use fserv.ServerState.Saved.{
  Files, fsave_file, fload_file, joined_lines, load_root, load_each, add_super_cop, clear_ops,
  clear_super_cops, load_string, load_string_list, load_ops, save_scops, save_ops,
}
use fserv.ServerState.Saved.Bans.{fload_file-fsave_file}

-- A file under another name is as it was.
fload_file-fsave_file_other :
    (writable : Bytes → Bool) (name other contents : Bytes) (files : Files)
    → writable name ≡ true
    → same name other ≡ false
    → fload_file other (fsave_file writable name contents files).0 ≡ fload_file other files
unfolding fload_file fsave_file
fload_file-fsave_file_other writable name other contents files w n =
    rw w (rw (lookup-insert name other contents files) (rw n refl))

is_op-op_list : (n : Bytes) (s t : ServerState) → s.op_list ≡ t.op_list → is_op n s ≡ is_op n t
unfolding is_op
is_op-op_list n s t e = ap (op_member n) e

is_op_only :
    (n : Bytes) (s before : ServerState)
    → (op_member n s.op_list || is_op n (clear_ops before)) ≡ is_op n s
unfolding is_op op_member
is_op_only n s before = ground arith

member_only : (n : Bytes) (ops : List Bytes) → (member n ops || member n []) ≡ member n ops
unfolding member
member_only n ops = ground arith

module _ {J : Type 0} (j : Jansson J) (laws : IsJansson j) where
  load_string-text :
      (target : Bytes → ServerState → ServerState) (op : Bytes) (s : ServerState)
      → IsText op
      → load_string j target (text j op) s ≡ target op s
  unfolding load_string
  load_string-text target op s t =
      rw (laws.string_value-string op) (ap (λ o. target o s) (c_str_idem op ∙ t))

  load_each-add_op :
      (ops : List Bytes) (s : ServerState) (n : Bytes)
      → All IsText ops
      → is_op n (load_each (load_string j add_op) (map (text j) ops) s)
        ≡ (op_member n ops || is_op n s)
  unfolding load_each op_member
  load_each-add_op [] s n t = refl
  load_each-add_op (op ∷ ops) s n t =
      ap (λ x. is_op n (load_each (load_string j add_op) (map (text j) ops) x))
        (load_string-text add_op op s t.0)
      ∙ load_each-add_op ops (add_op op s) n t.1
      ∙ ap (λ b. op_member n ops || b) (is_op-add_op op n s)
      ∙ ground arith

  load_each-add_super_cop :
      (ops : List Bytes) (s : ServerState) (n : Bytes)
      → All IsText ops
      → (member n (load_each (load_string j add_super_cop) (map (text j) ops) s).super_cop_list
          ≡ (member n ops || member n s.super_cop_list))
        × ((load_each (load_string j add_super_cop) (map (text j) ops) s).op_list ≡ s.op_list)
  unfolding load_each member
  load_each-add_super_cop [] s n t = (refl, refl)
  load_each-add_super_cop (op ∷ ops) s n t =
      let rest = load_each-add_super_cop ops (add_super_cop op s) n t.1 in
      let first =
        ap (λ x. load_each (load_string j add_super_cop) (map (text j) ops) x)
          (load_string-text add_super_cop op s t.0) in
      (
        ap (λ x. member n x.super_cop_list) first
            ∙ rest.0
            ∙ ap (λ b. member n ops || b) (member-add op n s.super_cop_list)
            ∙ ground arith,
        ap (λ x. x.op_list) first ∙ rest.1,
      )

  load_string_list-parsed :
      (name : Bytes) (target : Bytes → ServerState → ServerState)
      (clear : ServerState → ServerState) (files : Files) (ops : List Bytes) (s : ServerState)
      → load_root j name files ≡ some (j.json_array (map (text j) ops))
      → load_string_list j name target clear files s
        ≡ load_each (load_string j target) (map (text j) ops) (clear s)
  unfolding load_string_list
  load_string_list-parsed name target clear files ops s parses =
      rw parses (rw (laws.elements-array (map (text j) ops)) refl)

  -- The text that is written for a list of names, read back.
  abbrev pub IsParsed : List Bytes → Type 0
  IsParsed ops =
      j.json_loads (c_str (joined_lines (j.json_dumps_indented (j.json_array (map (text j) ops)))))
      ≡ some (j.json_array (map (text j) ops))

  -- If both files can be opened, both texts written parse, without their line ends, to what they
  -- were written from, and no name holds a zero byte: then, after saving and loading, whatever the
  -- state before, the operators and the super operators are exactly those that were saved.
  pub load_ops-save_ops :
      (writable : Bytes → Bool) (s before : ServerState) (files : Files) (n : Bytes)
      → writable (codes "./ops.json") ≡ true
      → writable (codes "./scops.json") ≡ true
      → IsParsed s.op_list
      → IsParsed s.super_cop_list
      → All IsText s.op_list
      → All IsText s.super_cop_list
      → (is_op n (load_ops j (save_ops j writable s files) before) ≡ is_op n s)
        × (member n (load_ops j (save_ops j writable s files) before).super_cop_list
            ≡ member n s.super_cop_list)
  unfolding load_ops save_ops save_scops
  load_ops-save_ops writable s before files n w w' parsed parsed' texts texts' =
      let ops_text = j.json_dumps_indented (j.json_array (map (text j) s.op_list)) in
      let scops_text = j.json_dumps_indented (j.json_array (map (text j) s.super_cop_list)) in
      let files1 = (fsave_file writable (codes "./ops.json") ops_text files).0 in
      let files2 = (fsave_file writable (codes "./scops.json") scops_text files1).0 in
      let scops_read : load_root j (codes "./scops.json") files2 ≡ _ =
        ap (λ c. j.json_loads (c_str c))
          (fload_file-fsave_file writable (codes "./scops.json") scops_text files1 w')
        ∙ parsed' in
      let ops_read : load_root j (codes "./ops.json") files2 ≡ _ =
        ap (λ c. j.json_loads (c_str c))
          (fload_file-fsave_file_other writable (codes "./scops.json") (codes "./ops.json")
              scops_text files1 w' (unfold eq_bytes in refl)
            ∙ fload_file-fsave_file writable (codes "./ops.json") ops_text files w)
        ∙ parsed in
      let loaded1 =
        load_string_list-parsed (codes "./ops.json") add_op clear_ops files2 s.op_list before
          ops_read in
      let state1 = load_each (load_string j add_op) (map (text j) s.op_list) (clear_ops before) in
      let loaded2 =
        ap (load_string_list j (codes "./scops.json") add_super_cop clear_super_cops files2) loaded1
        ∙ load_string_list-parsed (codes "./scops.json") add_super_cop clear_super_cops files2
            s.super_cop_list state1 scops_read in
      let last = load_each-add_super_cop s.super_cop_list (clear_super_cops state1) n texts' in
      (
        ap (is_op n) loaded2
            ∙ is_op-op_list n _ state1 last.1
            ∙ load_each-add_op s.op_list (clear_ops before) n texts
            ∙ is_op_only n s before,
        ap (λ x. member n x.super_cop_list) loaded2 ∙ last.0 ∙ member_only n s.super_cop_list,
      )
