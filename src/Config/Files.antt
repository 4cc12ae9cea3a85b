-- ===== src/Config/Files.antt =====
-- save_config_file and parse_config_file of config.c, with the file between them.
use minieap.Conf.{Conf}
