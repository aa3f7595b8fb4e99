-- ===== src/Errors.antt =====
-- service/src/error.rs: the service's errors. A formatted message is represented by the template
-- that the code formats; the values that it puts in are left out.
pub data Message : Type 0 where
  invalid_cidr_format invalid_ip_address invalid_subnet_mask mask_too_long : Message
  invalid_target empty_name domain_and_address invalid_domain : Message
  invalid_port_range subnet_mask_out_of_range invalid_process_path process_path_too_long : Message
  invalid_local_address local_mask_out_of_range local_address_unsupported : Message
  invalid_address_prefix ipv4_prefix_out_of_range ipv6_prefix_out_of_range : Message
  invalid_remote_address buffer_too_small dns_buffer_too_small : Message
  empty_import import_rejected : Message
  other : Message

pub data ServiceError : Type 0 where
  database io driver ipc validation service not_found serialization wfp unknown :
      Message → ServiceError
