-- ===== src/Memories/Prepare.antt =====
-- `_required_text`, `_required_hash` and `_prepare_memory` of storage/memories.py. The digest of a
-- text's UTF-8 bytes, hashlib's SHA-256 in lower-case hexadecimal, is a parameter.
use project_memory_hub.Common.{◌≡◌, Bool, ◌&&◌, ◌||◌, not, [], ◌==◌, length, all, arith}
use project_memory_hub.Common.Exec.{Result, ok, value_error, then_pure, then_pure-eq-ok, guard}
use project_memory_hub.Text.{Text, within, strip}
use project_memory_hub.Text.Equal.{text_eq, text_eq→eq}
use project_memory_hub.Text.Utf8.{strict_utf8_size}
use project_memory_hub.Domain.{BehaviorMemoryInput}

unfoldable pub required_text : Text → Result Text
required_text value =
    let stripped = strip value in
    then_pure (guard (not (text_eq stripped [])) value_error) (λ _. ok stripped)

-- `_SHA256.fullmatch`: 64 lower-case hexadecimal digits.
unfoldable pub is_sha256 : Text → Bool
is_sha256 t = length t == 64 && all (λ c. within b'0' b'9' c || within b'a' b'f' c) t

unfoldable pub required_hash : Text → Result Text
required_hash value =
    then_pure (required_text value)
      λ stripped. then_pure (guard (is_sha256 stripped) value_error) (λ _. ok stripped)

module _ (sha256 : Text → Text) where
  -- `hashlib.sha256(value.encode("utf-8")).hexdigest()`.
  unfoldable pub hexdigest : Text → Result Text
  hexdigest value = then_pure (strict_utf8_size value) (λ _. ok (sha256 value))

  unfoldable pub prepare_memory : BehaviorMemoryInput → Result BehaviorMemoryInput
  prepare_memory memory = then_pure (required_text memory.normalized_content) λ content.
      then_pure (required_hash memory.task_fingerprint) λ fingerprint.
        then_pure (required_hash memory.content_hash) λ hash.
          then_pure (hexdigest content) λ expected.
            then_pure (guard (text_eq hash expected) value_error) λ _. ok (record memory {
              normalized_content = content;
              task_fingerprint = fingerprint;
              content_hash = hash;
            })

  -- A prepared memory's hash is the digest of its content.
  pub prepare_memory-hash :
      (memory prepared : BehaviorMemoryInput)
      → prepare_memory memory ≡ ok prepared
      → prepared.content_hash ≡ sha256 prepared.normalized_content
  unfolding prepare_memory hexdigest
  prepare_memory-hash memory prepared h =
      let (content, _, h1) = then_pure-eq-ok (required_text memory.normalized_content) _ _ h in
      let (print, _, h2) = then_pure-eq-ok (required_hash memory.task_fingerprint) _ _ h1 in
      let (hash, _, h3) = then_pure-eq-ok (required_hash memory.content_hash) _ _ h2 in
      ground (arith, text_eq→eq hash (sha256 content))
