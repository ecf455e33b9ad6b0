-- ===== src/Agent/Combo/Types.antt =====
-- The constants of node/agent/api/combo.go.
use xdrop.Prelude.{ℕ}
use xdrop.Prelude.Int.{ℤ, pos, negsuc}

-- -1: no combo
abbrev pub combo_unknown : ℤ
combo_unknown = negsuc 0

abbrev pub combo_bitmap_size : ℕ
combo_bitmap_size = 64

-- src_ip + dst_ip + src_port + dst_port + protocol
abbrev pub combo_exact5_tuple : ℤ
combo_exact5_tuple = pos 0

-- dst_ip + src_port + dst_port + protocol
abbrev pub combo_wildcard_src_ip : ℤ
combo_wildcard_src_ip = pos 1

-- dst_ip + dst_port + protocol
abbrev pub combo_wildcard_src_ip_port : ℤ
combo_wildcard_src_ip_port = pos 2

-- dst_ip + protocol
abbrev pub combo_dst_ip_proto : ℤ
combo_dst_ip_proto = pos 3

-- dst_ip only
abbrev pub combo_dst_ip_only : ℤ
combo_dst_ip_only = pos 4

-- protocol only
abbrev pub combo_proto_only : ℤ
combo_proto_only = pos 5

-- src_port only
abbrev pub combo_src_port_only : ℤ
combo_src_port_only = pos 6

-- dst_port only
abbrev pub combo_dst_port_only : ℤ
combo_dst_port_only = pos 7

-- src_ip only
abbrev pub combo_src_ip_only : ℤ
combo_src_ip_only = pos 8

-- src_ip + protocol
abbrev pub combo_src_ip_proto : ℤ
combo_src_ip_proto = pos 9

-- src_ip + dst_ip
abbrev pub combo_src_dst_ip : ℤ
combo_src_dst_ip = pos 10

-- src_ip + dst_port
abbrev pub combo_src_ip_dst_port : ℤ
combo_src_ip_dst_port = pos 11

-- dst_ip + dst_port
abbrev pub combo_dst_ip_dst_port : ℤ
combo_dst_ip_dst_port = pos 12

-- src_ip + dst_ip + protocol
abbrev pub combo_src_dst_ip_proto : ℤ
combo_src_dst_ip_proto = pos 13

-- src_ip + dst_port + protocol
abbrev pub combo_src_ip_dst_port_proto : ℤ
combo_src_ip_dst_port_proto = pos 14

-- src_port + protocol
abbrev pub combo_src_port_proto : ℤ
combo_src_port_proto = pos 15

-- dst_port + protocol
abbrev pub combo_dst_port_proto : ℤ
combo_dst_port_proto = pos 16

-- src_ip + src_port
abbrev pub combo_src_ip_src_port : ℤ
combo_src_ip_src_port = pos 17

-- src_ip + src_port + protocol
abbrev pub combo_src_ip_src_port_proto : ℤ
combo_src_ip_src_port_proto = pos 18

-- dst_ip + dst_port + protocol
abbrev pub combo_dst_ip_dst_port_proto : ℤ
combo_dst_ip_dst_port_proto = pos 20

-- src_ip + dst_ip + dst_port
abbrev pub combo_src_dst_ip_dst_port : ℤ
combo_src_dst_ip_dst_port = pos 21

-- src_ip + dst_ip + dst_port + protocol
abbrev pub combo_src_dst_ip_dst_port_proto : ℤ
combo_src_dst_ip_dst_port_proto = pos 22

-- src_ip + src_port + dst_port
abbrev pub combo_src_ip_ports : ℤ
combo_src_ip_ports = pos 23

-- src_ip + src_port + dst_port + protocol
abbrev pub combo_src_ip_ports_proto : ℤ
combo_src_ip_ports_proto = pos 24

-- dst_ip + src_port
abbrev pub combo_dst_ip_src_port : ℤ
combo_dst_ip_src_port = pos 25

-- dst_ip + src_port + protocol
abbrev pub combo_dst_ip_src_port_proto : ℤ
combo_dst_ip_src_port_proto = pos 26

-- src_port + dst_port
abbrev pub combo_ports_only : ℤ
combo_ports_only = pos 27

-- src_port + dst_port + protocol
abbrev pub combo_ports_proto : ℤ
combo_ports_proto = pos 28

-- src_ip + dst_ip + src_port
abbrev pub combo_src_dst_ip_src_port : ℤ
combo_src_dst_ip_src_port = pos 29

-- src_ip + dst_ip + src_port + protocol
abbrev pub combo_src_dst_ip_src_port_proto : ℤ
combo_src_dst_ip_src_port_proto = pos 30

-- dst_ip + src_port + dst_port
abbrev pub combo_dst_ip_ports : ℤ
combo_dst_ip_ports = pos 31

-- dst_ip + src_port + dst_port + protocol
abbrev pub combo_dst_ip_ports_proto : ℤ
combo_dst_ip_ports_proto = pos 32

-- src_ip + dst_ip + src_port + dst_port
abbrev pub combo_all_except_proto : ℤ
combo_all_except_proto = pos 33
