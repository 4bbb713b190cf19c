-- ===== src/Controller/Naming/RoundTrip.antt =====
-- internal/controller/naming.go: a restarted controller reads from the tags what was written there.
use proxmox_actions_runners.Prelude.{
  ℤ, ◌≡◌, ◌≢◌, ◌⊎◌, ◌↔◌, ◌∙◌, ap, sym, subst, refl, text_eq, Bool, true, false, List, [], ◌∷◌, ◌++◌,
  Text, has_prefix, trim_prefix, if◌then◌else◌, arith, contains, text_beq, is_empty, inl, inr,
}
use proxmox_actions_runners.Prelude.Int.{Fits64, beq_ℤ_iff}
use proxmox_actions_runners.Prelude.Number.{itoa}
use proxmox_actions_runners.Prelude.Number.RoundTrip.{parse_int-format_int}
use proxmox_actions_runners.Prelude.Results.{ok, ◌>>=◌, >>=-eq-ok}
use proxmox_actions_runners.Prelude.Time.{
  Time, unix, unix_time, truncate_second, truncate_second-unix, truncate_second-stable, zero_time,
}
use proxmox_actions_runners.Proxmox.{Vm, has_tag}
use proxmox_actions_runners.VmTags
use proxmox_actions_runners.Controller.Naming.{
  worker_name, worker_tags, Worker, read_tag, read_tags, finish, parse_worker,
}

read_tags_nil : (w : Worker) → read_tags w [] ≡ ok w
unfolding read_tags
read_tags_nil w = refl

read_tags_cons :
    (w : Worker) (tag : Text) (tags : List Text) {w' : Worker}
    → read_tag w tag ≡ ok w'
    → read_tags w (tag ∷ tags) ≡ read_tags w' tags
unfolding read_tags
read_tags_cons w tag tags e = rw e

read_tags_bind :
    (w : Worker) (tag : Text) (tags : List Text)
    → read_tags w (tag ∷ tags) ≡ (read_tag w tag >>= λ v. read_tags v tags)
unfolding read_tags
read_tags_bind w tag tags = refl

is_empty_iff : (s : Text) → (is_empty s ≡ true) ↔ (s ≡ [])
is_empty_iff [] = ground arith
is_empty_iff (c ∷ s) = ground arith

read_tag-scale_set :
    (w : Worker) (s : Text)
    → read_tag w (VmTags.scale_set_prefix ++ s) ≡ ok (record w { scale_set = s })
unfolding read_tag has_prefix trim_prefix
read_tag-scale_set w s = refl

read_tag-created :
    (w : Worker) (z : ℤ)
    → Fits64 z
    → read_tag w (VmTags.created_prefix ++ itoa z) ≡ ok (record w { created = unix_time z })
unfolding read_tag has_prefix trim_prefix
read_tag-created w z h = rw (parse_int-format_int z h)

read_tag-template : (w : Worker) (s : Text) → read_tag w (VmTags.template_ref_prefix ++ s) ≡ ok w
unfolding read_tag has_prefix trim_prefix
read_tag-template w s = refl

read_tag-plain :
    (w : Worker) (s : Text)
    → (s ≡ VmTags.managed) ⊎ (s ≡ VmTags.worker) ⊎ (s ≡ VmTags.ready)
    → read_tag w s ≡ ok w
unfolding read_tag has_prefix trim_prefix
read_tag-plain w s (inl e) = rw e
read_tag-plain w s (inr (inl e)) = rw e
read_tag-plain w s (inr (inr e)) = rw e

read_tags-worker_tags :
    (w : Worker) (ss : Text) (created : Time) (tpl : ℤ) (ready : Bool)
    → Fits64 (unix created)
    → read_tags w (worker_tags ss created tpl ready)
      ≡ ok (record w { scale_set = ss; created = unix_time (unix created) })
unfolding worker_tags
read_tags-worker_tags w ss created tpl ready h =
    let w1 = record w { scale_set = ss } in
    let w2 = record w1 { created = unix_time (unix created) } in
    rw
      (
        read_tags_cons w VmTags.managed _ (read_tag-plain w _ (inl refl)),
        read_tags_cons w VmTags.worker _ (read_tag-plain w _ (inr (inl refl))),
        read_tags_cons w _ _ (read_tag-scale_set w ss),
        read_tags_cons w1 _ _ (read_tag-created w1 (unix created) h),
        read_tags_cons w2 _ _ (read_tag-template w2 (itoa tpl)),
      )
      (last w2 ready)
  where
    last : (v : Worker) (b : Bool) → read_tags v (if b then VmTags.ready ∷ [] else []) ≡ ok v
    last v true =
        read_tags_cons v VmTags.ready [] (read_tag-plain v _ (inr (inr refl))) ∙ read_tags_nil v
    last v false = read_tags_nil v

-- The `ready` tag is there exactly when it was written.
has_tag-ready :
    (vm : Vm) (ss : Text) (created : Time) (tpl : ℤ) (ready : Bool)
    → vm.tags ≡ worker_tags ss created tpl ready
    → has_tag vm VmTags.ready ≡ ready
unfolding has_tag worker_tags contains text_beq
has_tag-ready vm ss created tpl true e = rw e
has_tag-ready vm ss created tpl false e = rw e

finish-named :
    (w : Worker)
    → w.scale_set ≢ []
    → w.created ≢ zero_time
    → finish w ≡ ok (record w { name = worker_name w.vm.vmid w.created })
finish-named w h k = ground (arith, beq_ℤ_iff w.created zero_time, is_empty_iff w.scale_set)

abbrev start : Vm → Bool → Worker
start vm ready = record { vm = vm; name = []; scale_set = []; created = zero_time; ready = ready }

parse_worker_lem :
    (vm : Vm)
    → parse_worker vm ≡ (read_tags (start vm (has_tag vm VmTags.ready)) vm.tags >>= finish)
unfolding parse_worker
parse_worker_lem vm = refl

-- The worker that `create` means by these arguments.
abbrev pub intended : Vm → Text → Time → Bool → Worker
intended vm ss created ready = record {
  vm = vm;
  name = worker_name vm.vmid created;
  scale_set = ss;
  created = created;
  ready = ready;
}

-- A worker whose tags are those that `create` wrote, ready or not, is read back as that worker:
-- its scale set, its creation time and its name are the ones that it was created with.
pub parse_worker-worker_tags :
    (vm : Vm) (ss : Text) (now : Time) (tpl : ℤ) (ready : Bool)
    → ss ≢ []
    → Fits64 (unix now)
    → truncate_second now ≢ zero_time
    → vm.tags ≡ worker_tags ss (truncate_second now) tpl ready
    → parse_worker vm ≡ ok (intended vm ss (truncate_second now) ready)
parse_worker-worker_tags vm ss now tpl ready h f z e =
    let t = truncate_second now in
    let w0 = start vm (has_tag vm VmTags.ready) in
    let read : Worker = record w0 { scale_set = ss; created = unix_time (unix t) } in
    parse_worker_lem vm
    ∙ ap (λ ts. read_tags w0 ts >>= finish) e
    ∙ ap (λ r. r >>= finish)
        (read_tags-worker_tags w0 ss t tpl ready (subst Fits64 (sym (truncate_second-unix now)) f))
    ∙ finish-named read h (λ k. z (sym (truncate_second-stable now) ∙ k))
    ∙ ap (λ u. ok (intended vm ss u (has_tag vm VmTags.ready))) (truncate_second-stable now)
    ∙ ap (λ b. ok (intended vm ss t b)) (has_tag-ready vm ss t tpl ready e)

read_tag-vm : (w : Worker) (tag : Text) (w' : Worker) → read_tag w tag ≡ ok w' → w'.vm ≡ w.vm
unfolding read_tag
read_tag-vm w tag w' e = ground arith

read_tags-vm :
    (w : Worker) (tags : List Text) (w' : Worker) → read_tags w tags ≡ ok w' → w'.vm ≡ w.vm
read_tags-vm w [] w' e = unfold read_tags in ground arith
read_tags-vm w (tag ∷ tags) w' e =
    let (v, first, rest) =
      >>=-eq-ok (read_tag w tag) (λ x. read_tags x tags) (sym (read_tags_bind w tag tags) ∙ e) in
    read_tags-vm v tags w' rest ∙ read_tag-vm w tag v first

finish-vm : (w v : Worker) → finish w ≡ ok v → v.vm ≡ w.vm
finish-vm w v e = ground arith

-- A worker that is read from a VM's tags is that VM.
pub parse_worker-vm : (vm : Vm) (w : Worker) → parse_worker vm ≡ ok w → w.vm ≡ vm
parse_worker-vm vm w e =
    let w0 = start vm (has_tag vm VmTags.ready) in
    let (v, read, done) = >>=-eq-ok (read_tags w0 vm.tags) finish (sym (parse_worker_lem vm) ∙ e) in
    finish-vm v w done ∙ read_tags-vm w0 vm.tags v read
