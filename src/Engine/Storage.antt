-- ===== src/Engine/Storage.antt =====
-- The storage of the engine, where the database works (src/storage/storage_process.go).
use atom_engine.Base.{◌≡◌, String, false, some, lookup, insert}
use atom_engine.Token.{Token}
use atom_engine.Engine.{
  Engine, ProcessInstance, save_token, load_process_instance, save_process_instance,
  load_tokens_by_process_instance, tokens_where, is_in_instance,
}

module _ (s : Engine) where
  pub save_token-works :
      (t : Token)
      → s.token_write_fails ≡ false
      → save_token t s ≡ some (record s { tokens = insert t.token_id t s.tokens })
  unfolding save_token
  save_token-works t works = simp works

  pub load_tokens_by_process_instance-works :
      (id : String)
      → s.token_read_fails ≡ false
      → load_tokens_by_process_instance id s ≡ some (tokens_where (is_in_instance id) s.tokens)
  unfolding load_tokens_by_process_instance
  load_tokens_by_process_instance-works id works = simp works

  pub load_process_instance-works :
      (id : String)
      → s.instance_read_fails ≡ false
      → load_process_instance id s ≡ lookup id s.instances
  unfolding load_process_instance
  load_process_instance-works id works = simp works

  pub save_process_instance-works :
      (p : ProcessInstance)
      → s.instance_write_fails ≡ false
      → save_process_instance p s
        ≡ some (record s { instances = insert p.instance_id p s.instances })
  unfolding save_process_instance
  save_process_instance-works p works = simp works
